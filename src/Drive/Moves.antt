-- ===== src/Drive/Moves.antt =====
-- What MoveFile does to the index, over a store that keeps its contract.
use mathlib.Core.Path.{subst}
use telecollection.Prelude.{
  ℤ, pos, ◌==ℤ◌, ==ℤ_iff, ◌≡◌, refl, ap, ◌∙◌, arith, Bool-cases, inl, inr, ◌&&◌, Option, none, some,
  if◌then◌else◌, Yields, Yields-bind, Yields-wrapping, Yields-pure,
}
use telecollection.Strings.{Unicode}
use telecollection.Store.{File, Store}
use telecollection.Store
use telecollection.Store.Contract.{View, Same, Contract}
use telecollection.Dialogs.{Folder}
use telecollection.Drive.{reindex_moved_file, put_moved, moved_entry}
use telecollection.Drive.Reindex.{Ensured, ensuring, listing_files, putting_file}
use telecollection.Drive.Effects.{deleting_file}

-- A file that the index had at the source stands at the destination, with its name, size and type,
-- and is gone from the source; no other file is touched.
pub record MovedFile (v w : View) (src_row : Store.Folder) (id : ℤ) (channel new_id : ℤ) (f : File)
    : Type 0 where
  pub row : Store.Folder
  pub found : w.folder (pos 0) channel ≡ some row
  pub copy : File
  pub same : (copy.name ≡ f.name) × (copy.size ≡ f.size) × (copy.mime ≡ f.mime)
  pub file :
      (a b : ℤ)
      → w.file a b ≡ (
          if (src_row.id ==ℤ a) && (id ==ℤ b)
          then none
          else (if (row.id ==ℤ a) && (new_id ==ℤ b) then some copy else v.file a b))

pub record Moved (v w : View) (src id dst new_id : ℤ) : Type 0 where
  pub row : Store.Folder
  pub found : w.folder (pos 0) src ≡ some row
  pub unknown : v.file row.id id ≡ none → (a b : ℤ) → w.file a b ≡ v.file a b
  pub moved : (f : File) → v.file row.id id ≡ some f → MovedFile v w row id dst new_id f

-- Ensuring a second folder keeps the row of the first.
still_found :
    (v w : View) (x y : ℤ) (r g : Store.Folder)
    → v.folder (pos 0) x ≡ some r
    → Ensured v w y g
    → w.folder (pos 0) x ≡ some r
still_found v w x y r g h e = elim (Bool-cases ((pos 0 ==ℤ pos 0) && (y ==ℤ x))) [
  | inl t ↦
      let q : y ≡ x = ground (arith, ==ℤ_iff y x) in
      let here : v.folder (pos 0) y ≡ some r = rw q h in
      subst (λ z. w.folder (pos 0) z ≡ some r) q (e.found ∙ ap some (e.known r here))
  | inr t ↦ e.folder (pos 0) x t ∙ h
]

module _ (u : Unicode) {D : Type 0} (store : Store D) {Valid : D → Type 0} {view : D → View}
    (c : Contract store Valid view) where
  moving_found :
      (src_row : Store.Folder) (src id : ℤ) (dst : Folder) (new_id : ℤ) (t : D) (o : Option File)
      (v : View)
      → Valid t
      → Same v (view t)
      → v.folder (pos 0) src ≡ some src_row
      → o ≡ v.file src_row.id id
      → Yields (put_moved u store src_row id dst new_id o) t (λ _ w.
        Valid w
        × ((view w).folder (pos 0) src ≡ some src_row)
        × (o ≡ none → (a b : ℤ) → (view w).file a b ≡ v.file a b)
        × ((f : File) → o ≡ some f → MovedFile v (view w) src_row id dst.channel_id new_id f))
  moving_found src_row src id dst new_id t none v valid same known e =
      Yields-pure tt (valid, same.folder (pos 0) src ∙ known, λ _ a b. same.file a b, λ f q. cc)
  moving_found src_row src id dst new_id t (some m) v valid same known e =
      Yields-bind _ _ (ensuring u store c dst t valid) (λ g t1 (valid1, ens).
        Yields-bind _ _
          (Yields-wrapping _ _ (putting_file store c t1 valid1 (moved_entry u store g.id new_id m)))
          (λ s t2 (valid2, put). Yields-wrapping _ _ (record {
            at = λ h.
                let (valid3, gone) = (deleting_file store c src_row.id id t2 valid2).at h in
                (
                  valid3,
                  gone.folder (pos 0) src
                      ∙ put.folder (pos 0) src
                      ∙ still_found (view t) (view t1) src dst.channel_id src_row g
                          (same.folder (pos 0) src ∙ known) ens,
                  λ q. cc,
                  λ f q. record {
                    row = g;
                    found =
                        gone.folder (pos 0) dst.channel_id
                        ∙ put.folder (pos 0) dst.channel_id
                        ∙ ens.found;
                    copy = s;
                    same = (put.name ∙ cc q, put.size ∙ cc q, put.mime ∙ cc q);
                    file =
                        λ a b. gone.file a b ∙ rw (put.file a b, ens.file a b, same.file a b) refl;
                  },
                );
          })))

  pub moving :
      (src : Folder) (id : ℤ) (dst : Folder) (new_id : ℤ) (d : D)
      → Valid d
      → Yields
          (reindex_moved_file u store src id dst new_id)
          d
          (λ _ w. Valid w × Moved (view d) (view w) src.channel_id id dst.channel_id new_id)
  unfolding reindex_moved_file
  moving src id dst new_id d valid =
      Yields-bind _ _ (ensuring u store c src d valid) (λ g t (valid', ens).
        Yields-bind _ _ (Yields-wrapping _ _ (listing_files store c t valid' g.id))
          (λ fs t' (valid'', same, at). record {
            at = λ h.
                let (valid3, found, unknown, moved) =
                  (moving_found g src.channel_id id dst new_id t' _ (view t) valid'' same ens.found
                      (at id)).at
                    h in
                (
                  valid3,
                  record {
                    row = g;
                    found = found;
                    unknown = λ q a b. unknown (at id ∙ ens.file g.id id ∙ q) a b ∙ ens.file a b;
                    moved = λ f q.
                        let m = moved f (at id ∙ ens.file g.id id ∙ q) in
                        record {
                          row = m.row;
                          found = m.found;
                          copy = m.copy;
                          same = m.same;
                          file = λ a b. m.file a b ∙ rw (ens.file a b) refl;
                        };
                  },
                );
          }))
