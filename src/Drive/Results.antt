-- ===== src/Drive/Results.antt =====
-- What the methods of driveService do to the index, over a store that keeps its contract and whatever
-- the Telegram side answers.
use mathlib.Core.Path.{subst}
use telecollection.Prelude.{
  ℤ, pos, ◌==ℤ◌, ==ℤ_refl, ◌≡◌, refl, sym, ap, ◌∙◌, String, Bytes, Option, none, some, List, find,
  Result, ok, err, panicked, ok-injective, Error, Action, wrapping, pure, Yields, Yields-bind,
  Yields-wrapping, Yields-pure, ◌>>=◌,
}
use telecollection.Strings.{Unicode}
use telecollection.Store.{File, Store}
use telecollection.Store.Contract.{View, Contract}
use telecollection.Dialogs.{Folder}
use telecollection.Fileops
use telecollection.Drive.{
  Conn, with_api, remote, local, list_files_of, prune, reindex_renamed_file, reindex_moved_file,
}
use telecollection.Drive.Effects.{Pruned, pruning, Renamed, renaming, listing}
use telecollection.Drive.Moves.{Moved, moving}
use telecollection.Drive.Service
use telecollection.Drive.Service.{keeping, beside, reindexed}

module _ {T D : Type 0} where
  pub Yields-local :
      {A : Type 0} (m : Action D A) {Q : A → D → Type 0} (t : T) (d : D)
      → Yields m d Q
      → Yields (local m) (t, d) (λ a s. Q a s.1)
  Yields-local m t d y = record { at = λ h. y.at (λ i. ((h i).0, (h i).1.1)) }

  -- A step on the Telegram side leaves the index alone.
  pub Yields-remote :
      {A B : Type 0} (msg : String) (m : Action T A) (f : A → Action (T × D) B)
      {Q : B → T × D → Type 0} (t : T) (d : D)
      → ((a : A) (t' : T) → Yields (f a) (t', d) Q)
      → Yields (wrapping msg (remote m) >>= f) (t, d) Q
  Yields-remote msg m f {Q} t d y =
      Yields-bind (wrapping msg (remote m)) f {P = λ a s. s.1 ≡ d}
        (Yields-wrapping msg (remote m) (record { at = λ h. sym (ap (λ p. p.1.1) h) }))
        (λ a s e. subst (λ z. Yields (f a) (s.0, z) Q) (sym e) (y a s.0))

-- An error beside `a` or a failure, which is put beside `a`.
kept_result :
    {S A : Type 0} (a : A) (r : Result (A × Option Error)) (s : S) {b : A × Option Error} {s' : S}
    (Q : A × Option Error → S → Type 0)
    → ((c : A × Option Error) → ◌≡◌ {A = Result (A × Option Error) × S} (r, s) (ok c, s') → Q c s')
    → ((e : Error) → Q (a, some e) s')
    → ◌≡◌ {A = Result (A × Option Error) × S} (beside a r, s) (ok b, s')
    → Q b s'
kept_result a (ok x) s {b = b} Q y z h = y b h
kept_result a (err e) s {s' = s'} Q y z h =
    subst (λ b. Q b s') (ok-injective (ap (λ p. p.0) h)) (z e)
kept_result a panicked s Q y z h = cc

pub Yields-keeping :
    {S A : Type 0} (a : A) (m : Action S (A × Option Error)) (s : S)
    {Q : A × Option Error → S → Type 0}
    → Yields m s Q
    → ((e : Error) (s' : S) → Q (a, some e) s')
    → Yields (keeping a m) s Q
Yields-keeping a m s {Q} y z = record {
  at = λ {s' = s'} h. kept_result a (m s).0 (m s).1 Q (λ c q. y.at q) (λ e. z e s') h;
}

module _ (u : Unicode) {T D : Type 0} (conn : Conn T) (store : Store D) {Valid : D → Type 0}
    {view : D → View} (c : Contract store Valid view) where
  -- If the store keeps its contract: a DeleteFile that returns no error leaves the folder in the index
  -- without the file, and every other file as it was.
  pub delete_file-Pruned :
      (folder : Folder) (id : ℤ) (t t' : T) (d d' : D)
      → Valid d
      → Service.delete_file u conn store folder id (t, d) ≡ (ok tt, (t', d'))
      → Valid d' × Pruned (view d) (view d') folder.channel_id id
  unfolding Service.delete_file
  delete_file-Pruned folder id t t' d d' valid h =
      (Yields-remote "drive: delete file" (with_api conn (λ api. Fileops.delete api folder id))
          (λ _. local (prune u store folder id)) t d
          (λ a s.
            Yields-local (prune u store folder id) s d (pruning u store c folder id d valid))).at
        h

  -- If the store keeps its contract: a RenameFile that returns no error leaves the file, where the
  -- index has it, under the new name with all else kept, and every other file as it was.
  pub rename_file-Renamed :
      (folder : Folder) (id : ℤ) (name : Bytes) (t t' : T) (d d' : D)
      → Valid d
      → Service.rename_file u conn store folder id name (t, d) ≡ (ok tt, (t', d'))
      → Valid d' × Renamed (view d) (view d') folder.channel_id id name
  unfolding Service.rename_file
  rename_file-Renamed folder id name t t' d d' valid h =
      (Yields-remote "drive: rename file"
          (with_api conn (λ api. Fileops.rename u api folder id name))
          (λ _. local (reindex_renamed_file u store folder id name)) t d
          (λ a s.
            Yields-local (reindex_renamed_file u store folder id name) s d
              (renaming u store c folder id name d valid))).at
        h

  move_reindexed :
      (src : Folder) (id : ℤ) (dst : Folder) (o : ℤ × Option Error) (t : T) (d : D)
      → Valid d
      → Yields
          (reindexed u conn store src id dst o)
          (t, d)
          (λ r s.
            r.1 ≡ none → Valid s.1 × Moved (view d) (view s.1) src.channel_id id dst.channel_id r.0)
  move_reindexed src id dst (n, some e) t d valid = Yields-pure _ (λ q. cc)
  move_reindexed src id dst (n, none) t d valid =
      Yields-keeping n _ (t, d)
        (Yields-bind (local (reindex_moved_file u store src id dst n)) (λ _. pure (n, none))
          (Yields-local (reindex_moved_file u store src id dst n) t d
            (moving u store c src id dst n d valid))
          (λ _ s m. Yields-pure (n, none) (λ _. m)))
        (λ e s' q. cc)

  -- If the store keeps its contract: a MoveFile that returns an id and no error moves the file, where
  -- the index has it at the source, to the destination under that id with its name, size and type,
  -- and leaves every other file as it was; a file that the index does not have changes no file.
  pub move_file-Moved :
      (rand_int64 : T → ℤ × T) (src : Folder) (id : ℤ) (dst : Folder) (new_id : ℤ) (t t' : T)
      (d d' : D)
      → Valid d
      → Service.move_file u conn store rand_int64 src id dst (t, d) ≡ (ok (new_id, none), (t', d'))
      → Valid d' × Moved (view d) (view d') src.channel_id id dst.channel_id new_id
  unfolding Service.move_file
  move_file-Moved rand_int64 src id dst new_id t t' d d' valid h =
      (Yields-bind
          (keeping (pos 0) (remote (with_api conn (λ api. Fileops.move rand_int64 api src id dst))))
          (λ o. reindexed u conn store src id dst o) {P = λ a s. s.1 ≡ d}
          (record { at = λ q. sym (ap (λ p. p.1.1) q) })
          (λ o s e.
            subst
              (λ z.
                Yields (reindexed u conn store src id dst o) (s.0, z)
                  (λ r s.
                    r.1 ≡ none
                    → Valid s.1 × Moved (view d) (view s.1) src.channel_id id dst.channel_id r.0))
              (sym e) (move_reindexed src id dst o s.0 d valid))).at
        h refl

  -- If the store keeps its contract: after a DeleteFile that returned no error, a ListFiles of the
  -- folder that returns a list shows no file with that message id.
  pub delete_file-list_files :
      (folder : Folder) (id : ℤ) (t t' t'' : T) (d d' d'' : D) (files : List File)
      → Valid d
      → Service.delete_file u conn store folder id (t, d) ≡ (ok tt, (t', d'))
      → Service.list_files u conn store folder (t', d') ≡ (ok files, (t'', d''))
      → find (λ f. f.message_id ==ℤ id) files ≡ none
  unfolding Service.list_files
  delete_file-list_files folder id t t' t'' d d' d'' files valid h k =
      let (valid', pruned) = delete_file-Pruned folder id t t' d d' valid h in
      let (row, known, at) =
        (Yields-local (list_files_of u store folder) t' d' (listing u store c folder d' valid')).at
          k in
      at id
      ∙ pruned.file row.id id
      ∙ rw (known pruned.row pruned.found, ==ℤ_refl pruned.row.id, ==ℤ_refl id)
