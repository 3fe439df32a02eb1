-- ===== src/Store/Contract/Maps.antt =====
-- The maps behind a database, and what the statements do to them.
use mathlib.Core.Option
use telecollection.Prelude.{
  ℤ, pos, ◌==ℤ◌, ==ℤ_iff, ◌≡◌, refl, ap, ◌∙◌, arith, Bool, true, false, ◌&&◌, Option, none, some,
  List, [], ◌∷◌, map, find, if◌then◌else◌,
}
use telecollection.Store.{Time, Folder, File}
use telecollection.Store.Table.{select}
use telecollection.Store.Keys.{at, at_key, updated}
use telecollection.Store.Engine.{Db, FolderRow, FileRow, changed_file, fresh_folder, fresh_file}
use telecollection.Store.Sqlite.{nullable_id, scan_folder, scan_file}
use telecollection.Store.Sound.{IsSound}
use telecollection.Store.Rows.{folder_row, file_row, put_folder, put_file, file_by_id}
use telecollection.Store.Contract.{View, without_id}

module _ {S : Type 0} (time_parse : S → Option Time) where
  abbrev pub view_of : Db S → View
  view_of db = record {
    folder = λ x y. Option.map (scan_folder time_parse) (folder_row db x y);
    file = λ x y. Option.map (scan_file time_parse) (file_row db x y);
  }

find-map :
    {A B : Type 0} (f : A → B) (p : B → Bool) (l : List A)
    → find p (map f l) ≡ Option.map f (find (λ a. p (f a)) l)
unfolding find
find-map f p [] = refl
find-map f p (a ∷ l) = ground (arith, find-map f p l)

find-select :
    {A : Type 0} (p q : A → Bool) (l : List A) → find q (select p l) ≡ find (λ a. p a && q a) l
unfolding find select
find-select p q [] = refl
find-select p q (a ∷ l) = ground (arith, find-select p q l)

module _ {S : Type 0} (time_parse : S → Option Time) where
  pub list_files-at :
      (folder y : ℤ) (db : Db S)
      → find
          (λ (f : File). f.message_id ==ℤ y)
          (map (scan_file time_parse) (select (λ r. r.folder_id ==ℤ folder) db.files))
        ≡ Option.map (scan_file time_parse) (file_row db folder y)
  list_files-at folder y db =
      find-map (scan_file time_parse) (λ f. f.message_id ==ℤ y)
        (select (λ r. r.folder_id ==ℤ folder) db.files)
      ∙ ap (Option.map (scan_file time_parse))
          (find-select (λ r. r.folder_id ==ℤ folder) (λ r. r.message_id ==ℤ y) db.files)

  pub list_folders-at :
      (account y : ℤ) (db : Db S)
      → find
          (λ (f : Folder). f.channel_id ==ℤ y)
          (map (scan_folder time_parse) (select (λ r. r.tg_account_id ==ℤ account) db.folders))
        ≡ Option.map (scan_folder time_parse) (folder_row db account y)
  list_folders-at account y db =
      find-map (scan_folder time_parse) (λ f. f.channel_id ==ℤ y)
        (select (λ r. r.tg_account_id ==ℤ account) db.folders)
      ∙ ap (Option.map (scan_folder time_parse))
          (find-select (λ r. r.tg_account_id ==ℤ account) (λ r. r.channel_id ==ℤ y) db.folders)

  pub map-without_id :
      (i : ℤ) (o : Option (FileRow S))
      → Option.map
          (scan_file time_parse)
          (elim o [ none ↦ none | some r ↦ if r.id ==ℤ i then none else some r ])
        ≡ without_id i (Option.map (scan_file time_parse) o)
  map-without_id i none = refl
  map-without_id i (some r) = ground arith

  pub row-key :
      (db : Db S) (x y : ℤ) (f : File) (o : Option (FileRow S))
      → file_row db x y ≡ o
      → Option.map (scan_file time_parse) o ≡ some f
      → (f.folder_id ≡ x) × (f.message_id ≡ y)
  row-key db x y f none e h = cc
  row-key db x y f (some r) e h =
      ground (arith, at_key (λ (r : FileRow S). r.folder_id) (λ r. r.message_id) x y r db.files)

  pub file_id-scan :
      (db : Db S) (x y x' y' : ℤ) (o o' : Option (FileRow S)) (f g : File)
      → IsSound db
      → file_row db x y ≡ o
      → file_row db x' y' ≡ o'
      → Option.map (scan_file time_parse) o ≡ some f
      → Option.map (scan_file time_parse) o' ≡ some g
      → f.id ≡ g.id
      → f ≡ g
  file_id-scan db x y x' y' none o' f g sound e e' h h' q = cc
  file_id-scan db x y x' y' (some r) none f g sound e e' h h' q = cc
  file_id-scan db x y x' y' (some r) (some r') f g sound e e' h h' q =
      ground (arith, file_by_id db x y r sound e, file_by_id db x' y' r' sound e')

pub map-if :
    {A B : Type 0} (f : A → B) (b : Bool) (a : A) (o : Option A)
    → Option.map f (if b then some a else o) ≡ (if b then some (f a) else Option.map f o)
map-if f true a o = refl
map-if f false a o = refl

module _ {S : Type 0} (time_parse : S → Option Time) where
  updated_folder-key :
      (f : Folder) (fresh : FolderRow S) (rows : List (FolderRow S)) (o : Option (FolderRow S))
      → at
          (λ (r : FolderRow S). r.tg_account_id)
          (λ r. r.channel_id)
          f.tg_account_id
          f.channel_id
          rows
        ≡ o
      → (fresh.tg_account_id ≡ f.tg_account_id)
        × (fresh.channel_id ≡ f.channel_id)
        × (fresh.name ≡ f.name)
      → let r =
          updated
            (λ (r : FolderRow S). r.tg_account_id)
            (λ r. r.channel_id)
            o
            (λ r. record r { name = f.name })
            fresh in
        (r.tg_account_id ≡ f.tg_account_id) × (r.channel_id ≡ f.channel_id) × (r.name ≡ f.name)
  updated_folder-key f fresh rows none e h = h
  updated_folder-key f fresh rows (some r) e h =
      let (a, c) =
        at_key (λ (r : FolderRow S). r.tg_account_id) (λ r. r.channel_id) f.tg_account_id
          f.channel_id r rows e in
      (a, c, refl)

  updated_file-key :
      (f : File) (m : Option ℤ) (fresh : FileRow S) (rows : List (FileRow S))
      (o : Option (FileRow S))
      → at (λ (r : FileRow S). r.folder_id) (λ r. r.message_id) f.folder_id f.message_id rows ≡ o
      → (fresh.folder_id ≡ f.folder_id)
        × (fresh.message_id ≡ f.message_id)
        × (fresh.name ≡ f.name)
        × (fresh.size ≡ f.size)
        × (fresh.mime ≡ f.mime)
      → let r =
          updated (λ (r : FileRow S). r.folder_id) (λ r. r.message_id) o (changed_file f m) fresh in
        (r.folder_id ≡ f.folder_id)
        × (r.message_id ≡ f.message_id)
        × (r.name ≡ f.name)
        × (r.size ≡ f.size)
        × (r.mime ≡ f.mime)
  updated_file-key f m fresh rows none e h = h
  updated_file-key f m fresh rows (some r) e h =
      let (a, c) =
        at_key (λ (r : FileRow S). r.folder_id) (λ r. r.message_id) f.folder_id f.message_id r rows
          e in
      (a, c, refl, refl, refl)

  pub put_folder-key :
      (db : Db S) (f : Folder)
      → ((put_folder db f).tg_account_id ≡ f.tg_account_id)
        × ((put_folder db f).channel_id ≡ f.channel_id)
        × ((put_folder db f).name ≡ f.name)
  put_folder-key db f =
      updated_folder-key f (fresh_folder db f) db.folders
        (folder_row db f.tg_account_id f.channel_id) refl (refl, refl, refl)

  pub put_file-key :
      (db : Db S) (f : File) (o : Option ℤ)
      → ((put_file db f o).folder_id ≡ f.folder_id)
        × ((put_file db f o).message_id ≡ f.message_id)
        × ((put_file db f o).name ≡ f.name)
        × ((put_file db f o).size ≡ f.size)
        × ((put_file db f o).mime ≡ f.mime)
  put_file-key db f o =
      updated_file-key f o (fresh_file db f o) db.files (file_row db f.folder_id f.message_id) refl
        (refl, refl, refl, refl, refl)

  pub put_file-manifest :
      (db : Db S) (f : File)
      → (scan_file time_parse (put_file db f (nullable_id f.chunk_manifest_id))).chunk_manifest_id
        ≡ f.chunk_manifest_id
  put_file-manifest db f = ground (arith, ==ℤ_iff f.chunk_manifest_id (pos 0))

  pub put_file-kept :
      (db : Db S) (f old : File) (o : Option ℤ)
      → Option.map (scan_file time_parse) (file_row db f.folder_id f.message_id) ≡ some old
      → ((scan_file time_parse (put_file db f o)).id ≡ old.id)
        × ((scan_file time_parse (put_file db f o)).created_at ≡ old.created_at)
  put_file-kept db f old o h = ground arith
