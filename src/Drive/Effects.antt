-- ===== src/Drive/Effects.antt =====
-- What the operations on files do to the index, over a store that keeps its contract.
use mathlib.Core.Path.{subst}
use mathlib.Core.Option
use telecollection.Prelude.{
  ℤ, pos, ◌==ℤ◌, ==ℤ_iff, ◌≡◌, refl, sym, ap, ◌∙◌, arith, Bool-cases, inl, inr, Bytes, ◌&&◌, Option,
  none, some, find, if◌then◌else◌, Yields, Yields-bind, Yields-wrapping, Yields-pure,
}
use telecollection.Strings.{Unicode}
use telecollection.Store.{File, Store}
use telecollection.Store
use telecollection.Store.Contract.{View, Same, Contract, without_id}
use telecollection.Dialogs.{Folder}
use telecollection.Index
use telecollection.Index.{delete_found}
use telecollection.Drive.{list_files_of, reindex_renamed_file, prune, put_renamed}
use telecollection.Drive.Reindex.{
  ensuring, listing_files, putting_file, deleting, Gone, absent, only_file,
}

module _ {D : Type 0} (store : Store D) {Valid : D → Type 0} {view : D → View}
    (c : Contract store Valid view) where
  removing :
      (x y : ℤ) (d t : D) (o : Option File)
      → Valid d
      → Valid t
      → Same (view d) (view t)
      → o ≡ (view d).file x y
      → Yields (delete_found store o) t (λ _ w. Valid w × Gone (view d) (view w) x y)
  removing x y d t none valid valid' same e = Yields-pure tt (
    valid',
    record { folder = same.folder; file = λ a b. same.file a b ∙ absent x y a b (view d) (sym e) },
  )
  removing x y d t (some f) valid valid' same e =
      Yields-wrapping "index: deleting file" (store.delete_file f.id) (record {
        at = λ h.
            let (valid'', folder, file) = (deleting store c t valid' f.id).at h in
            (
              valid'',
              record {
                folder = λ a b. folder a b ∙ same.folder a b;
                file = λ a b.
                    file a b
                    ∙ ap (without_id f.id) (same.file a b)
                    ∙ only_file store c d valid x y a b f _ (sym e) refl;
              },
            );
      })

  pub deleting_file :
      (x y : ℤ) (d : D)
      → Valid d
      → Yields (Index.delete_file store x y) d (λ _ w. Valid w × Gone (view d) (view w) x y)
  unfolding Index.delete_file
  deleting_file x y d valid =
      Yields-bind _ _ (Yields-wrapping _ _ (listing_files store c d valid x))
        (λ fs t (valid', same, at). removing x y d t _ valid valid' same (at y))

-- The folder has a row in the index, and the file is not listed in it; no other file is touched.
pub record Pruned (v w : View) (channel id : ℤ) : Type 0 where
  pub row : Store.Folder
  pub found : w.folder (pos 0) channel ≡ some row
  pub file : (a b : ℤ) → w.file a b ≡ (if (row.id ==ℤ a) && (id ==ℤ b) then none else v.file a b)

module _ (u : Unicode) {D : Type 0} (store : Store D) {Valid : D → Type 0} {view : D → View}
    (c : Contract store Valid view) where
  pub pruning :
      (folder : Folder) (id : ℤ) (d : D)
      → Valid d
      → Yields
          (prune u store folder id)
          d
          (λ _ w. Valid w × Pruned (view d) (view w) folder.channel_id id)
  unfolding prune
  pruning folder id d valid =
      Yields-bind _ _ (ensuring u store c folder d valid) (λ g t (valid', ensured).
        Yields-wrapping _ _ (record {
          at = λ h.
              let (valid'', gone) = (deleting_file store c g.id id t valid').at h in
              (
                valid'',
                record {
                  row = g;
                  found = gone.folder (pos 0) folder.channel_id ∙ ensured.found;
                  file = λ a b. gone.file a b ∙ rw (ensured.file a b) refl;
                },
              );
        }))

abbrev pub with_name : Bytes → File → File
with_name name f = record f { name = name }

-- The file, if the index has it, carries the new name and keeps the rest; no other file is touched.
pub record Renamed (v w : View) (channel id : ℤ) (name : Bytes) : Type 0 where
  pub row : Store.Folder
  pub found : w.folder (pos 0) channel ≡ some row
  pub file :
      (a b : ℤ)
      → w.file a b ≡ (
          if (row.id ==ℤ a) && (id ==ℤ b)
          then Option.map (with_name name) (v.file a b)
          else v.file a b)

same_file :
    (f g : File) (name : Bytes)
    → (g.id ≡ f.id) × (g.created_at ≡ f.created_at)
    → (g.folder_id ≡ f.folder_id)
      × (g.message_id ≡ f.message_id)
      × (g.name ≡ name)
      × (g.size ≡ f.size)
      × (g.mime ≡ f.mime)
      × (g.chunk_manifest_id ≡ f.chunk_manifest_id)
    → g ≡ with_name name f
same_file f g name (i, t) (a, b, n, s, m, k) j = record {
  id = i j;
  folder_id = a j;
  message_id = b j;
  name = n j;
  size = s j;
  mime = m j;
  chunk_manifest_id = k j;
  created_at = t j;
}

-- A choice at a key, where the value there is known.
at_its_key :
    {A : Type 0} (m : ℤ → ℤ → Option A) (F : Option A → Option A) (x y a b : ℤ) (o : Option A)
    → m x y ≡ o
    → (if (x ==ℤ a) && (y ==ℤ b) then F o else m a b)
      ≡ (if (x ==ℤ a) && (y ==ℤ b) then F (m a b) else m a b)
at_its_key m F x y a b o h = elim (Bool-cases ((x ==ℤ a) && (y ==ℤ b))) [
  | inl t ↦
      let ex : x ≡ a = ground (arith, ==ℤ_iff x a) in
      let ey : y ≡ b = ground (arith, ==ℤ_iff y b) in
      rw t (ap F (sym (subst (λ z. m z b ≡ o) ex (subst (λ z. m x z ≡ o) ey h))))
  | inr t ↦ rw t refl
]

module _ (u : Unicode) {D : Type 0} (store : Store D) {Valid : D → Type 0} {view : D → View}
    (c : Contract store Valid view) where
  renaming_found :
      (x y : ℤ) (name : Bytes) (t : D) (o : Option File) (v : View)
      → Valid t
      → Same v (view t)
      → o ≡ v.file x y
      → Yields (put_renamed u store name o) t (λ _ w.
        Valid w
        × ((a b : ℤ) → (view w).folder a b ≡ v.folder a b)
        × ((a b : ℤ)
            → (view w).file a b ≡ (
                if (x ==ℤ a) && (y ==ℤ b)
                then Option.map (with_name name) (v.file a b)
                else v.file a b)))
  renaming_found x y name t none v valid same e = Yields-pure tt (
    valid,
    same.folder,
    λ a b.
        same.file a b
        ∙ absent x y a b v (sym e)
        ∙ at_its_key v.file (Option.map (with_name name)) x y a b none (sym e),
  )
  renaming_found x y name t (some f) v valid same e =
      let here : (view t).file x y ≡ some f = same.file x y ∙ sym e in
      let (ex, ey) = c.file_key x y t f valid here in
      Yields-bind _ _ (Yields-wrapping _ _ (putting_file store c t valid (with_name name f)))
        (λ g w (valid', put). Yields-pure tt (
          valid',
          λ a b. put.folder a b ∙ same.folder a b,
          λ a b.
              let here' : (view t).file f.folder_id f.message_id ≡ some f =
                subst (λ z. (view t).file z f.message_id ≡ some f) (sym ex)
                  (subst (λ z. (view t).file x z ≡ some f) (sym ey) here) in
              let kept = put.kept f here' in
              let q : g ≡ with_name name f =
                same_file f g name kept
                  (put.folder_id, put.message_id, put.name, put.size, put.mime, put.manifest) in
              put.file a b
              ∙ rw (ex, ey, q, same.file a b)
                  (at_its_key v.file (Option.map (with_name name)) x y a b (some f) (sym e)),
        ))

  pub renaming :
      (folder : Folder) (id : ℤ) (name : Bytes) (d : D)
      → Valid d
      → Yields
          (reindex_renamed_file u store folder id name)
          d
          (λ _ w. Valid w × Renamed (view d) (view w) folder.channel_id id name)
  unfolding reindex_renamed_file
  renaming folder id name d valid =
      Yields-bind _ _ (ensuring u store c folder d valid) (λ g t (valid', ensured).
        Yields-bind _ _ (Yields-wrapping _ _ (listing_files store c t valid' g.id))
          (λ fs t' (valid'', same, at). record {
            at = λ h.
                let (valid3, folders, files) =
                  (renaming_found g.id id name t' _ (view t) valid'' same (at id)).at h in
                (
                  valid3,
                  record {
                    row = g;
                    found = folders (pos 0) folder.channel_id ∙ ensured.found;
                    file = λ a b. files a b ∙ rw (ensured.file a b) refl;
                  },
                );
          }))

  -- ListFiles: the files under the row of the folder.
  pub listing :
      (folder : Folder) (d : D)
      → Valid d
      → Yields (list_files_of u store folder) d (λ files w.
        (row : Store.Folder) × ((old : Store.Folder)
          → (view d).folder (pos 0) folder.channel_id ≡ some old
          → row ≡ old)
        × ((y : ℤ) → find (λ f. f.message_id ==ℤ y) files ≡ (view d).file row.id y))
  unfolding list_files_of
  listing folder d valid =
      Yields-bind _ _ (ensuring u store c folder d valid) (λ g t (valid', ensured).
        Yields-wrapping _ _ (record {
          at = λ h.
              let (valid'', same, at) = (listing_files store c t valid' g.id).at h in
              (g, ensured.known, λ y. at y ∙ ensured.file g.id y);
        }))
