-- ===== src/Store/Sound.antt =====
-- What holds of the tables between two calls.
use telecollection.Prelude.{
  ℕ, suc, ◌≤◌, ℤ, refl, arith, Bool, true, false, Option, none, some, if◌then◌else◌, Error, Bytes,
  raise, pure, Keeps, keeps_rules,
}
use telecollection.Store.{Time, Folder, File, ChunkManifest, Store}
use telecollection.Store.Table.{delete}
use telecollection.Store.Ascending.{
  Ascends, Ascends-mono, Ascends-upsert, Ascends-delete, Ascends-snoc,
}
use telecollection.Store.Keys.{Unique, Unique-upsert, Unique-delete}
use telecollection.Store.Engine.{
  Db, FolderRow, FileRow, ManifestRow, statement, statement-keeps, query, insert_folder,
  insert_file, insert_manifest, advance, changed_file, fresh_folder, fresh_file, fresh_manifest,
}
use telecollection.Store.Sqlite
use telecollection.Store.Sqlite.{Json, or_no_rows, or_not_found, sqlite}
use telecollection.Store.Postgres
use telecollection.Store.Postgres.{postgres}

advance-le : (c b : Bool) (n : ℕ) → (if c then n else suc n) ≤ advance c b n
advance-le c b n = ground arith

module _ {S : Type 0} where
  -- In each table the ids ascend from 1 and lie below the counter, and the unique keys are unique.
  abbrev pub IsSound : Db S → Type 0
  IsSound db =
      Ascends (λ (r : FolderRow S). r.id) 1 db.next_folder db.folders
      × Unique (λ (r : FolderRow S). r.tg_account_id) (λ r. r.channel_id) db.folders
      × Ascends (λ (r : FileRow S). r.id) 1 db.next_file db.files
      × Unique (λ (r : FileRow S). r.folder_id) (λ r. r.message_id) db.files
      × Ascends (λ (r : ManifestRow S). r.id) 1 db.next_manifest db.manifests

  pub insert_folder-IsSound : (f : Folder) (db : Db S) → IsSound db → IsSound (insert_folder f db)
  unfolding insert_folder
  insert_folder-IsSound f db (a, u, a', u', m) = (
    Ascends-mono (λ (r : FolderRow S). r.id) 1 1 _ _ _ (omega arith)
        (advance-le _ db.burns db.next_folder)
        (Ascends-upsert (λ r. r.id) _ (λ r. record r { name = f.name }) (fresh_folder db f) 1
          db.next_folder db.folders (λ r. refl) refl a),
    Unique-upsert (λ (r : FolderRow S). r.tg_account_id) (λ r. r.channel_id) _ _ _
        (fresh_folder db f) db.folders (λ r. (refl, refl)) (refl, refl) u,
    a',
    u',
    m,
  )

  pub insert_file-IsSound :
      (f : File) (o : Option ℤ) (db : Db S) → IsSound db → IsSound (insert_file f o db)
  unfolding insert_file
  insert_file-IsSound f o db (a, u, a', u', m) = (
    a,
    u,
    Ascends-mono (λ (r : FileRow S). r.id) 1 1 _ _ _ (omega arith)
        (advance-le _ db.burns db.next_file)
        (Ascends-upsert (λ r. r.id) _ (changed_file f o) (fresh_file db f o) 1 db.next_file db.files
          (λ r. refl) refl a'),
    Unique-upsert (λ (r : FileRow S). r.folder_id) (λ r. r.message_id) _ _ (changed_file f o)
        (fresh_file db f o) db.files (λ r. (refl, refl)) (refl, refl) u',
    m,
  )

  insert_manifest-IsSound :
      (x : ChunkManifest) (ids : Bytes) (db : Db S)
      → IsSound db
      → IsSound (insert_manifest x ids db)
  unfolding insert_manifest
  insert_manifest-IsSound x ids db (a, u, a', u', m) = (
    a,
    u,
    a',
    u',
    Ascends-snoc (λ (r : ManifestRow S). r.id) 1 db.next_manifest (fresh_manifest db x ids)
        db.manifests refl m,
  )

  delete-IsSound :
      (p : FileRow S → Bool) (db : Db S)
      → IsSound db
      → IsSound (record db { files = delete p db.files })
  delete-IsSound p db (a, u, a', u', m) = (
    a,
    u,
    Ascends-delete (λ r. r.id) 1 db.next_file p db.files a',
    Unique-delete (λ r. r.folder_id) (λ r. r.message_id) p db.files u',
    m,
  )

  statement-IsSound :
      {A : Type 0} (run : Db S → A × Db S)
      → ((db : Db S) → IsSound db → IsSound (run db).1)
      → Keeps IsSound (statement run)
  statement-IsSound run keep = record {
    at = λ db h. statement-keeps run IsSound (λ d fs q. q) keep db h;
  }

  query-IsSound : {A : Type 0} (read : Db S → A) → Keeps IsSound (query read)
  query-IsSound read = statement-IsSound (λ db. (read db, db)) (λ db h. h)

  or_no_rows-IsSound : {A : Type 0} (o : Option A) → Keeps {S = Db S} IsSound (or_no_rows o)
  or_no_rows-IsSound none = search keeps_rules
  or_no_rows-IsSound (some a) = search keeps_rules

  or_not_found-IsSound : {A : Type 0} (o : Option A) → Keeps {S = Db S} IsSound (or_not_found o)
  or_not_found-IsSound none = search keeps_rules
  or_not_found-IsSound (some a) = search keeps_rules

  if-IsSound : (b : Bool) (e : Error) → Keeps {S = Db S} IsSound (if b then raise e else pure tt)
  if-IsSound true e = search keeps_rules
  if-IsSound false e = search keeps_rules

ruleset sound_rules = (
  keeps_rules, query-IsSound, or_no_rows-IsSound, or_not_found-IsSound, if-IsSound,
  statement-IsSound, insert_folder-IsSound, insert_file-IsSound, insert_manifest-IsSound,
  delete-IsSound,
)

-- Every method of a store keeps a predicate on what is behind it.
pub record KeepsAll {D : Type 0} (P : D → Type 0) (st : Store D) : Type 0 where
  pub ping : Keeps P st.ping
  pub create_folder : (f : Folder) → Keeps P (st.create_folder f)
  pub get_folder : (id : ℤ) → Keeps P (st.get_folder id)
  pub list_folders : (account : ℤ) → Keeps P (st.list_folders account)
  pub upsert_file : (f : File) → Keeps P (st.upsert_file f)
  pub get_file : (id : ℤ) → Keeps P (st.get_file id)
  pub list_files : (folder : ℤ) → Keeps P (st.list_files folder)
  pub delete_file : (id : ℤ) → Keeps P (st.delete_file id)
  pub create_manifest : (m : ChunkManifest) → Keeps P (st.create_manifest m)
  pub get_manifest : (id : ℤ) → Keeps P (st.get_manifest id)

-- The SQLite store keeps the tables sound through every method, whatever faults the driver shows.
pub sqlite-IsSound :
    {S : Type 0} (time_parse : S → Option Time) (json : Json)
    → KeepsAll IsSound (sqlite time_parse json)
unfolding Sqlite.ping Sqlite.create_folder Sqlite.get_folder Sqlite.list_folders Sqlite.upsert_file
    Sqlite.get_file Sqlite.list_files Sqlite.delete_file Sqlite.create_manifest Sqlite.get_manifest
sqlite-IsSound time_parse json = record {
  ping = search sound_rules;
  create_folder = λ f. search sound_rules;
  get_folder = λ id. search sound_rules;
  list_folders = λ account. search sound_rules;
  upsert_file = λ f. search sound_rules;
  get_file = λ id. search sound_rules;
  list_files = λ folder. search sound_rules;
  delete_file = λ id. search sound_rules;
  create_manifest = λ m. search sound_rules depth 12;
  get_manifest = λ id. search sound_rules;
}

-- The Postgres store keeps the tables sound through every method, whatever faults the driver shows.
pub postgres-IsSound :
    {S : Type 0} (scan_time : S → Time) (json : Json) → KeepsAll IsSound (postgres scan_time json)
unfolding Postgres.ping Postgres.create_folder Postgres.get_folder Postgres.list_folders
    Postgres.upsert_file Postgres.get_file Postgres.list_files Postgres.delete_file
    Postgres.create_manifest Postgres.get_manifest
postgres-IsSound scan_time json = record {
  ping = search sound_rules;
  create_folder = λ f. search sound_rules;
  get_folder = λ id. search sound_rules;
  list_folders = λ account. search sound_rules;
  upsert_file = λ f. search sound_rules;
  get_file = λ id. search sound_rules;
  list_files = λ folder. search sound_rules;
  delete_file = λ id. search sound_rules;
  create_manifest = λ m. search sound_rules depth 12;
  get_manifest = λ id. search sound_rules;
}
