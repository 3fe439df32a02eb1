-- ===== src/Drive/Naming.antt =====
-- The rows of folders in the index: what CreateFolder puts there, and what RenameFolder and
-- ListFolders leave there, over a store that keeps its contract.
mod Tests
use mathlib.Core.Path.{subst}
use telecollection.Prelude.{
  ℤ, pos, ◌==ℤ◌, ==ℤ_refl, ◌≡◌, refl, sym, ap, ◌∙◌, String, Bytes, Bool, true, false, ◌&&◌,
  is_empty, Option, none, some, List, Result, ok, err, panicked, ok-injective, Error, new, Action,
  wrapping, refuse_if, pure, Yields, Yields-bind, Yields-wrapping, Yields-lift, Yields-pure, ◌>>=◌,
}
use telecollection.Strings.{Unicode, trim_space}
use telecollection.Store.{Store}
use telecollection.Store
use telecollection.Store.Contract.{View, Contract}
use telecollection.Dialogs.{Folder, Slicing, value, out_of_fuel, panic, display_name}
use telecollection.Dialogs
use telecollection.Folders.{from_slicing}
use telecollection.Folders
use telecollection.Drive.{Conn, with_api, remote, local, ensure_folder, or_record, folder_entry}
use telecollection.Drive.Reindex.{Ensured, ensuring, listing_folders, putting_folder}
use telecollection.Drive.Results.{Yields-local, Yields-remote, Yields-keeping}
use telecollection.Drive.Service
use telecollection.Drive.Service.{create_remote, index_created}

-- The folder has a row in the index: the one it had, or else one with the folder's display name. No
-- other folder and no file is touched.
pub record Indexed (u : Unicode) (v w : View) (f : Folder) : Type 0 where
  pub row : Store.Folder
  pub found : w.folder (pos 0) f.channel_id ≡ some row
  pub known : (old : Store.Folder) → v.folder (pos 0) f.channel_id ≡ some old → row ≡ old
  pub fresh : v.folder (pos 0) f.channel_id ≡ none → display_name u f.title ≡ value row.name
  pub folder :
      (x y : ℤ) → ((pos 0 ==ℤ x) && (f.channel_id ==ℤ y)) ≡ false → w.folder x y ≡ v.folder x y
  pub file : (x y : ℤ) → w.file x y ≡ v.file x y

from_slicing-ok : (s : Slicing) (b : Bytes) → from_slicing s ≡ ok b → s ≡ value b
from_slicing-ok out_of_fuel b h = cc
from_slicing-ok panic b h = cc
from_slicing-ok (value a) b h = ap (λ z. value z) (ok-injective h)

module _ {S : Type 0} {s : S} where
  Yields-and :
      {A : Type 0} (m : Action S A) {P Q : A → S → Type 0}
      → Yields m s P
      → Yields m s Q
      → Yields m s (λ a t. P a t × Q a t)
  Yields-and m p q = record { at = λ h. (p.at h, q.at h) }

  Yields-refuse_if :
      {B : Type 0} (b : Bool) (e : Error) (f : Unit {0} → Action S B) {Q : B → S → Type 0}
      → Yields (f tt) s Q
      → Yields (refuse_if b e >>= f) s Q
  Yields-refuse_if true e f y = record { at = λ h. cc }
  Yields-refuse_if false e f y = y

-- A step on the Telegram side leaves the index alone.
Yields-index :
    {T D A : Type 0} (msg : String) (m : Action T A) (t : T) (d : D)
    → Yields (wrapping msg (remote m)) (t, d) (λ _ s. s.1 ≡ d)
Yields-index msg m t d =
    Yields-wrapping msg (remote m) (record { at = λ h. sym (ap (λ p. p.1.1) h) })

module _ (u : Unicode) {T D : Type 0} (conn : Conn T) (store : Store D) {Valid : D → Type 0}
    {view : D → View} (c : Contract store Valid view) where
  module _ (folder : Folder) (v : View) where
    abbrev ShowsTitle : Store.Folder → Type 0
    ShowsTitle g =
        v.folder (pos 0) folder.channel_id ≡ none → display_name u folder.title ≡ value g.name

    or_record-ShowsTitle :
        (t : D) (o : Option Store.Folder)
        → Valid t
        → o ≡ v.folder (pos 0) folder.channel_id
        → Yields (or_record u store folder o) t (λ g _. ShowsTitle g)
    or_record-ShowsTitle t (some g) valid e = Yields-pure g (λ h. cc)
    or_record-ShowsTitle t none valid e =
        Yields-lift (from_slicing (display_name u folder.title)) _ (λ name h.
          Yields-wrapping _ _ (record {
            at = λ k.
                let (valid', put) =
                  (putting_folder store c t valid (folder_entry u store folder name)).at k in
                λ _. from_slicing-ok _ name h ∙ ap (λ z. value z) (sym put.name);
          }))

  ensure_folder-ShowsTitle :
      (folder : Folder) (d : D)
      → Valid d
      → Yields (ensure_folder u store folder) d (λ g _. ShowsTitle folder (view d) g)
  unfolding ensure_folder
  ensure_folder-ShowsTitle folder d valid =
      Yields-bind _ _ (Yields-wrapping _ _ (listing_folders store c d valid (pos 0)))
        (λ fs t (valid', same, at).
          or_record-ShowsTitle folder (view d) t _ valid' (at folder.channel_id))

  indexing :
      (folder : Folder) (d : D)
      → Valid d
      → Yields
          (ensure_folder u store folder)
          d
          (λ _ t. Valid t × Indexed u (view d) (view t) folder)
  indexing folder d valid = record {
    at = λ h.
        let ((valid', ens), name) =
          (Yields-and (ensure_folder u store folder) (ensuring u store c folder d valid)
              (ensure_folder-ShowsTitle folder d valid)).at
            h in
        (
          valid',
          record {
            row = _;
            found = ens.found;
            known = ens.known;
            fresh = name;
            folder = ens.folder;
            file = ens.file;
          },
        );
  }

  index_created-Indexed :
      (created : Folder) (t : T) (d : D)
      → Valid d
      → Yields
          (index_created u conn store created)
          (t, d)
          (λ r s. r.1 ≡ none → Valid s.1 × Indexed u (view d) (view s.1) r.0)
  index_created-Indexed created t d valid =
      Yields-keeping created _ (t, d)
        (Yields-bind (wrapping "drive: indexing new folder" (local (ensure_folder u store created)))
          (λ row. pure (created, none))
          (Yields-wrapping "drive: indexing new folder" (local (ensure_folder u store created))
            (Yields-local (ensure_folder u store created) t d (indexing created d valid)))
          (λ row s' i. Yields-pure (created, none) (λ _. i)))
        (λ e s' q. cc)

  -- If the store keeps its contract: a CreateFolder that returns a folder and no error leaves it with
  -- a row in the index, the one that its channel had or else one with its display name, and every
  -- other folder and every file as it was.
  pub create_folder-Indexed :
      (name : Bytes) (folder : Folder) (t t' : T) (d d' : D)
      → Valid d
      → Service.create_folder u conn store name (t, d) ≡ (ok (folder, none), (t', d'))
      → Valid d' × Indexed u (view d) (view d') folder
  unfolding Service.create_folder
  create_folder-Indexed name folder t t' d d' valid h =
      (Yields-refuse_if (is_empty (trim_space u name)) (new "drive: folder name is required") _ (
          Yields-remote "drive: create folder" (with_api conn (create_remote u conn store name))
            (index_created u conn store) t d
            (λ created s. index_created-Indexed created s d valid))).at
        h refl

  -- If the store keeps its contract: after a RenameFolder and a ListFolders that returned no error,
  -- ensureFolder returns for the channel, whatever the title it is given, the row that the index had
  -- before: its name is still the old one.
  pub ensure_folder-rename_folder :
      (folder listed : Folder) (name : Bytes) (folders : List Folder) (old row : Store.Folder)
      (t t' t'' : T) (d d' d'' end : D)
      → Valid d
      → (view d).folder (pos 0) folder.channel_id ≡ some old
      → Service.rename_folder u conn store folder name (t, d) ≡ (ok tt, (t', d'))
      → Service.list_folders u conn store (t', d') ≡ (ok folders, (t'', d''))
      → listed.channel_id ≡ folder.channel_id
      → ensure_folder u store listed d'' ≡ (ok row, end)
      → row ≡ old
  unfolding Service.rename_folder Service.list_folders
  ensure_folder-rename_folder folder listed name folders old row t t' t'' d d' d'' end valid known h
        k e i =
      let renamed : d' ≡ d =
        (Yields-refuse_if (is_empty (trim_space u name)) (new "drive: new folder name is required")
            _
            (Yields-index "drive: rename folder"
              (with_api conn (λ api. Folders.rename u api folder name)) t d)).at
          h in
      let same : d'' ≡ d =
        (Yields-index "drive: list folders" (with_api conn (Dialogs.list u)) t' d').at k
        ∙ renamed in
      let ensured =
        (ensuring u store c listed d valid).at
          (subst (λ z. ensure_folder u store listed z ≡ (ok row, end)) same i) in
      (ensured.1).known old (subst (λ z. (view d).folder (pos 0) z ≡ some old) (sym e) known)
