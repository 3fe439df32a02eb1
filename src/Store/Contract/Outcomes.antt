-- ===== src/Store/Contract/Outcomes.antt =====
-- What a method that returns a value did to the rows, through every fault.
use telecollection.Prelude.{ℤ, ◌==ℤ◌, ◌≡◌, arith, Option, some, List, map, ok}
use telecollection.Store.{Time, Folder, File, Store}
use telecollection.Store.Postgres
use telecollection.Store.Postgres.{postgres}
use telecollection.Store.Table.{select, delete}
use telecollection.Store.Engine.{Db, statement, insert_folder, insert_file}
use telecollection.Store.Sqlite
use telecollection.Store.Sqlite.{
  Json, nullable_id, or_no_rows, or_not_found, scan_folder, scan_file, sqlite,
}
use telecollection.Store.Sound.{IsSound}
use telecollection.Store.Rows.{
  put_folder, put_file, folder_row-insert_self, file_row-insert_self, put_folder_by_id,
  put_file_by_id,
}

-- The rows that a store's methods leave, where they return a value.
pub record Outcomes {S : Type 0} (time_parse : S → Option Time) (st : Store (Db S)) : Type 0 where
  pub upsert_file :
      (f : File) (db : Db S) {g : File} {db' : Db S}
      → IsSound db
      → st.upsert_file f db ≡ (ok g, db')
      → (g ≡ scan_file time_parse (put_file db f (nullable_id f.chunk_manifest_id)))
        × (db'.files ≡ (insert_file f (nullable_id f.chunk_manifest_id) db).files)
        × (db'.folders ≡ db.folders)
  pub create_folder :
      (f : Folder) (db : Db S) {g : Folder} {db' : Db S}
      → IsSound db
      → st.create_folder f db ≡ (ok g, db')
      → (g ≡ scan_folder time_parse (put_folder db f))
        × (db'.files ≡ db.files)
        × (db'.folders ≡ (insert_folder f db).folders)
  pub list_folders :
      (account : ℤ) (db : Db S) {fs : List Folder} {db' : Db S}
      → IsSound db
      → st.list_folders account db ≡ (ok fs, db')
      → (fs ≡ map (scan_folder time_parse) (select (λ r. r.tg_account_id ==ℤ account) db.folders))
        × (db'.files ≡ db.files)
        × (db'.folders ≡ db.folders)
  pub list_files :
      (folder : ℤ) (db : Db S) {fs : List File} {db' : Db S}
      → IsSound db
      → st.list_files folder db ≡ (ok fs, db')
      → (fs ≡ map (scan_file time_parse) (select (λ r. r.folder_id ==ℤ folder) db.files))
        × (db'.files ≡ db.files)
        × (db'.folders ≡ db.folders)
  pub delete_file :
      (i : ℤ) (db : Db S) {u : Unit {0}} {db' : Db S}
      → IsSound db
      → st.delete_file i db ≡ (ok u, db')
      → (db'.files ≡ delete (λ r. r.id ==ℤ i) db.files) × (db'.folders ≡ db.folders)

module _ {S : Type 0} (time_parse : S → Option Time) where
  upsert_file-ok :
      (f : File) (db : Db S) {g : File} {db' : Db S}
      → IsSound db
      → Sqlite.upsert_file time_parse f db ≡ (ok g, db')
      → (g ≡ scan_file time_parse (put_file db f (nullable_id f.chunk_manifest_id)))
        × (db'.files ≡ (insert_file f (nullable_id f.chunk_manifest_id) db).files)
        × (db'.folders ≡ db.folders)
  unfolding Sqlite.upsert_file statement insert_file
  upsert_file-ok f db sound h = ground (
    arith,
    file_row-insert_self db f (nullable_id f.chunk_manifest_id),
    put_file_by_id db f (nullable_id f.chunk_manifest_id) sound,
  )

  create_folder-ok :
      (f : Folder) (db : Db S) {g : Folder} {db' : Db S}
      → IsSound db
      → Sqlite.create_folder time_parse f db ≡ (ok g, db')
      → (g ≡ scan_folder time_parse (put_folder db f))
        × (db'.files ≡ db.files)
        × (db'.folders ≡ (insert_folder f db).folders)
  unfolding Sqlite.create_folder statement insert_folder
  create_folder-ok f db sound h =
      ground (arith, folder_row-insert_self db f, put_folder_by_id db f sound)

  list_folders-ok :
      (account : ℤ) (db : Db S) {fs : List Folder} {db' : Db S}
      → Sqlite.list_folders time_parse account db ≡ (ok fs, db')
      → (fs ≡ map (scan_folder time_parse) (select (λ r. r.tg_account_id ==ℤ account) db.folders))
        × (db'.files ≡ db.files)
        × (db'.folders ≡ db.folders)
  unfolding Sqlite.list_folders statement
  list_folders-ok account db h = ground arith

  list_files-ok :
      (folder : ℤ) (db : Db S) {fs : List File} {db' : Db S}
      → Sqlite.list_files time_parse folder db ≡ (ok fs, db')
      → (fs ≡ map (scan_file time_parse) (select (λ r. r.folder_id ==ℤ folder) db.files))
        × (db'.files ≡ db.files)
        × (db'.folders ≡ db.folders)
  unfolding Sqlite.list_files statement
  list_files-ok folder db h = ground arith

  delete_file-ok :
      (i : ℤ) (db : Db S) {u : Unit {0}} {db' : Db S}
      → Sqlite.delete_file i db ≡ (ok u, db')
      → (db'.files ≡ delete (λ r. r.id ==ℤ i) db.files) × (db'.folders ≡ db.folders)
  unfolding Sqlite.delete_file statement
  delete_file-ok i db h = ground arith

pub sqlite-Outcomes :
    {S : Type 0} (time_parse : S → Option Time) (json : Json)
    → Outcomes time_parse (sqlite time_parse json)
sqlite-Outcomes time_parse json = record {
  create_folder = λ f db sound h. create_folder-ok time_parse f db sound h;
  list_folders = λ account db sound h. list_folders-ok time_parse account db h;
  upsert_file = λ f db sound h. upsert_file-ok time_parse f db sound h;
  list_files = λ folder db sound h. list_files-ok time_parse folder db h;
  delete_file = λ i db sound h. delete_file-ok time_parse i db h;
}

module _ {S : Type 0} (scan_time : S → Time) where
  abbrev scanned : S → Option Time
  scanned s = some (scan_time s)

  pg_upsert_file-ok :
      (f : File) (db : Db S) {g : File} {db' : Db S}
      → IsSound db
      → Postgres.upsert_file scan_time f db ≡ (ok g, db')
      → (g ≡ scan_file scanned (put_file db f (nullable_id f.chunk_manifest_id)))
        × (db'.files ≡ (insert_file f (nullable_id f.chunk_manifest_id) db).files)
        × (db'.folders ≡ db.folders)
  unfolding Postgres.upsert_file statement insert_file
  pg_upsert_file-ok f db sound h = ground (
    arith,
    file_row-insert_self db f (nullable_id f.chunk_manifest_id),
    put_file_by_id db f (nullable_id f.chunk_manifest_id) sound,
  )

  pg_create_folder-ok :
      (f : Folder) (db : Db S) {g : Folder} {db' : Db S}
      → IsSound db
      → Postgres.create_folder scan_time f db ≡ (ok g, db')
      → (g ≡ scan_folder scanned (put_folder db f))
        × (db'.files ≡ db.files)
        × (db'.folders ≡ (insert_folder f db).folders)
  unfolding Postgres.create_folder statement insert_folder
  pg_create_folder-ok f db sound h =
      ground (arith, folder_row-insert_self db f, put_folder_by_id db f sound)

  pg_list_folders-ok :
      (account : ℤ) (db : Db S) {fs : List Folder} {db' : Db S}
      → Postgres.list_folders scan_time account db ≡ (ok fs, db')
      → (fs ≡ map (scan_folder scanned) (select (λ r. r.tg_account_id ==ℤ account) db.folders))
        × (db'.files ≡ db.files)
        × (db'.folders ≡ db.folders)
  unfolding Postgres.list_folders statement
  pg_list_folders-ok account db h = ground arith

  pg_list_files-ok :
      (folder : ℤ) (db : Db S) {fs : List File} {db' : Db S}
      → Postgres.list_files scan_time folder db ≡ (ok fs, db')
      → (fs ≡ map (scan_file scanned) (select (λ r. r.folder_id ==ℤ folder) db.files))
        × (db'.files ≡ db.files)
        × (db'.folders ≡ db.folders)
  unfolding Postgres.list_files statement
  pg_list_files-ok folder db h = ground arith

  pg_delete_file-ok :
      (i : ℤ) (db : Db S) {u : Unit {0}} {db' : Db S}
      → Postgres.delete_file i db ≡ (ok u, db')
      → (db'.files ≡ delete (λ r. r.id ==ℤ i) db.files) × (db'.folders ≡ db.folders)
  unfolding Postgres.delete_file statement
  pg_delete_file-ok i db h = ground arith

pub postgres-Outcomes :
    {S : Type 0} (scan_time : S → Time) (json : Json)
    → Outcomes (λ s. some (scan_time s)) (postgres scan_time json)
postgres-Outcomes scan_time json = record {
  create_folder = λ f db sound h. pg_create_folder-ok scan_time f db sound h;
  list_folders = λ account db sound h. pg_list_folders-ok scan_time account db h;
  upsert_file = λ f db sound h. pg_upsert_file-ok scan_time f db sound h;
  list_files = λ folder db sound h. pg_list_files-ok scan_time folder db h;
  delete_file = λ i db sound h. pg_delete_file-ok scan_time i db h;
}
