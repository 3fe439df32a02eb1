-- ===== src/Store/Rows.antt =====
-- The rows that the upserts leave behind.
use telecollection.Prelude.{
  ℤ, pos, ◌==ℤ◌, ==ℤ_refl, ◌≡◌, refl, ◌∙◌, ◌&&◌, Option, some, [], ◌∷◌, ◌++◌, Bytes, find,
  if◌then◌else◌,
}
use telecollection.Store.{Folder, File, ChunkManifest}
use telecollection.Store.Ascending.{find-fresh}
use telecollection.Store.Keys.{at-upsert, updated, by_id-at}
use telecollection.Store.Engine.{
  Db, FolderRow, FileRow, is_folder, is_file, insert_folder, insert_file, changed_file,
  fresh_folder, fresh_file, fresh_manifest,
}
use telecollection.Store.Sound.{IsSound, insert_folder-IsSound, insert_file-IsSound}

-- A database whose driver shows no fault.
abbrev pub quiet : {S : Type 0} → Db S → Db S
quiet db = record db { faults = [] }

module _ {S : Type 0} where
  abbrev pub folder_row : Db S → ℤ → ℤ → Option (FolderRow S)
  folder_row db account channel = find (is_folder account channel) db.folders

  abbrev pub file_row : Db S → ℤ → ℤ → Option (FileRow S)
  file_row db folder message = find (is_file folder message) db.files

  abbrev renamed : Folder → FolderRow S → FolderRow S
  renamed f r = record r { name = f.name }

  -- The row that CreateFolder leaves: the old one under its new name, or a fresh one.
  abbrev pub put_folder : Db S → Folder → FolderRow S
  put_folder db f =
      updated (λ r. r.tg_account_id) (λ r. r.channel_id)
        (folder_row db f.tg_account_id f.channel_id) (renamed f) (fresh_folder db f)

  -- The row that UpsertFile leaves: the old one with the new columns, or a fresh one.
  abbrev pub put_file : Db S → File → Option ℤ → FileRow S
  put_file db f o =
      updated (λ r. r.folder_id) (λ r. r.message_id) (file_row db f.folder_id f.message_id)
        (changed_file f o) (fresh_file db f o)

  pub folder_row-insert :
      (db : Db S) (f : Folder) (x y : ℤ)
      → folder_row (insert_folder f db) x y ≡ (
          if (f.tg_account_id ==ℤ x) && (f.channel_id ==ℤ y)
          then some (put_folder db f)
          else folder_row db x y)
  unfolding insert_folder
  folder_row-insert db f x y =
      at-upsert (λ r. r.tg_account_id) (λ r. r.channel_id) f.tg_account_id f.channel_id x y
        (renamed f) (fresh_folder db f) db.folders (λ r. (refl, refl)) (refl, refl)

  pub file_row-insert :
      (db : Db S) (f : File) (o : Option ℤ) (x y : ℤ)
      → file_row (insert_file f o db) x y ≡ (
          if (f.folder_id ==ℤ x) && (f.message_id ==ℤ y)
          then some (put_file db f o)
          else file_row db x y)
  unfolding insert_file
  file_row-insert db f o x y =
      at-upsert (λ r. r.folder_id) (λ r. r.message_id) f.folder_id f.message_id x y
        (changed_file f o) (fresh_file db f o) db.files (λ r. (refl, refl)) (refl, refl)

  pub folder_row-insert_self :
      (db : Db S) (f : Folder)
      → folder_row (insert_folder f db) f.tg_account_id f.channel_id ≡ some (put_folder db f)
  folder_row-insert_self db f =
      folder_row-insert db f f.tg_account_id f.channel_id
      ∙ rw (==ℤ_refl f.tg_account_id, ==ℤ_refl f.channel_id)

  pub file_row-insert_self :
      (db : Db S) (f : File) (o : Option ℤ)
      → file_row (insert_file f o db) f.folder_id f.message_id ≡ some (put_file db f o)
  file_row-insert_self db f o =
      file_row-insert db f o f.folder_id f.message_id
      ∙ rw (==ℤ_refl f.folder_id, ==ℤ_refl f.message_id)

  -- The row with a key is the one that its id finds.
  pub folder_by_id :
      (db : Db S) (x y : ℤ) (r : FolderRow S)
      → IsSound db
      → folder_row db x y ≡ some r
      → find (λ q. q.id ==ℤ r.id) db.folders ≡ some r
  folder_by_id db x y r sound h =
      by_id-at (λ q. q.id) (λ q. q.tg_account_id) (λ q. q.channel_id) x y 1 db.next_folder r
        db.folders sound.0 h

  pub file_by_id :
      (db : Db S) (x y : ℤ) (r : FileRow S)
      → IsSound db
      → file_row db x y ≡ some r
      → find (λ q. q.id ==ℤ r.id) db.files ≡ some r
  file_by_id db x y r sound h =
      by_id-at (λ q. q.id) (λ q. q.folder_id) (λ q. q.message_id) x y 1 db.next_file r db.files
        sound.2 h

  pub put_folder_by_id :
      (db : Db S) (f : Folder)
      → IsSound db
      → find (λ q. q.id ==ℤ (put_folder db f).id) (insert_folder f db).folders
        ≡ some (put_folder db f)
  put_folder_by_id db f sound =
      folder_by_id (insert_folder f db) f.tg_account_id f.channel_id (put_folder db f)
        (insert_folder-IsSound f db sound) (folder_row-insert_self db f)

  pub put_file_by_id :
      (db : Db S) (f : File) (o : Option ℤ)
      → IsSound db
      → find (λ q. q.id ==ℤ (put_file db f o).id) (insert_file f o db).files
        ≡ some (put_file db f o)
  put_file_by_id db f o sound =
      file_by_id (insert_file f o db) f.folder_id f.message_id (put_file db f o)
        (insert_file-IsSound f o db sound) (file_row-insert_self db f o)

  pub manifest_by_id :
      (db : Db S)
      → IsSound db
      → (m : ChunkManifest) (ids : Bytes)
      → find (λ q. q.id ==ℤ pos db.next_manifest) (db.manifests ++ fresh_manifest db m ids ∷ [])
        ≡ some (fresh_manifest db m ids)
  manifest_by_id db sound m ids =
      find-fresh (λ q. q.id) 1 db.next_manifest (fresh_manifest db m ids) db.manifests refl sound.4
