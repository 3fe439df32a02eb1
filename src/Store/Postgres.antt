-- ===== src/Store/Postgres.antt =====
-- internal/store/postgres/postgres.go: each method is the statements it runs, in order. The inserts
-- return their row in the same statement.
use telecollection.Prelude.{
  ℤ, pos, negsuc, leb_ℤ, Bool, not, ◌&&◌, new, ◌==ℤ◌, List, map, find, ◌==◌, if◌then◌else◌, lift,
  Action, raise, pure, wrapping, ◌>>=◌, ◌>>◌,
}
use telecollection.Store.{Time, Folder, File, ChunkManifest, Store, err_not_found}
use telecollection.Store.Table.{select, delete, count}
use telecollection.Store.Engine.{
  Db, FolderRow, FileRow, ManifestRow, statement, query, is_folder, is_file, insert_folder,
  insert_file, insert_manifest, fresh_manifest,
}
use telecollection.Store.Sqlite.{Json, nullable_id, int64_of, or_no_rows, or_not_found}

-- The range of an INTEGER, of 32 bits; pgx refuses to send another value for it.
unfoldable pub is_int4 : ℤ → Bool
is_int4 n = leb_ℤ (negsuc 2147483647) n && leb_ℤ n (pos 2147483647)

module _ {S : Type 0} (scan_time : S → Time) where
  abbrev scan_folder : FolderRow S → Folder
  scan_folder r = record {
    id = r.id;
    tg_account_id = r.tg_account_id;
    channel_id = r.channel_id;
    name = r.name;
    created_at = scan_time r.created_at;
  }

  abbrev scan_file : FileRow S → File
  scan_file r = record {
    id = r.id;
    folder_id = r.folder_id;
    message_id = r.message_id;
    name = r.name;
    size = r.size;
    mime = r.mime;
    chunk_manifest_id = int64_of r.chunk_manifest_id;
    created_at = scan_time r.created_at;
  }

  -- CreateFolder
  unfoldable pub create_folder : Folder → Action (Db S) Folder
  create_folder f = do
    r ← wrapping "postgres: upsert folder" (do
      row ← statement (λ db.
          let db' = insert_folder f db in
          (find (is_folder f.tg_account_id f.channel_id) db'.folders, db'))
      or_no_rows row)
    pure (scan_folder r)

  -- GetFolder
  unfoldable pub get_folder : ℤ → Action (Db S) Folder
  get_folder id = do
    row ← wrapping "postgres: get folder" (query (λ db. find (λ r. r.id ==ℤ id) db.folders))
    r ← or_not_found row
    pure (scan_folder r)

  -- ListFolders
  unfoldable pub list_folders : ℤ → Action (Db S) (List Folder)
  list_folders account = do
    rows ←
        wrapping "postgres: list folders"
          (query (λ db. select (λ r. r.tg_account_id ==ℤ account) db.folders))
    wrapping "postgres: rows" (query (λ db. tt))
    pure (map scan_folder rows)

  -- UpsertFile
  unfoldable pub upsert_file : File → Action (Db S) File
  upsert_file f = do
    r ← wrapping "postgres: upsert file" (do
      row ← statement (λ db.
          let db' = insert_file f (nullable_id f.chunk_manifest_id) db in
          (find (is_file f.folder_id f.message_id) db'.files, db'))
      or_no_rows row)
    pure (scan_file r)

  -- GetFile
  unfoldable pub get_file : ℤ → Action (Db S) File
  get_file id = do
    row ← wrapping "postgres: get file" (query (λ db. find (λ r. r.id ==ℤ id) db.files))
    r ← or_not_found row
    pure (scan_file r)

  -- ListFiles
  unfoldable pub list_files : ℤ → Action (Db S) (List File)
  list_files folder = do
    rows ←
        wrapping "postgres: list files"
          (query (λ db. select (λ r. r.folder_id ==ℤ folder) db.files))
    wrapping "postgres: rows" (query (λ db. tt))
    pure (map scan_file rows)

-- Ping
unfoldable pub ping : {S : Type 0} → Action (Db S) (Unit {0})
ping = query (λ db. tt)

-- DeleteFile
unfoldable pub delete_file : {S : Type 0} → ℤ → Action (Db S) (Unit {0})
delete_file id = do
  n ← wrapping "postgres: delete file" (
      statement (λ db. (
        count (λ r. r.id ==ℤ id) db.files,
        record db { files = delete (λ r. r.id ==ℤ id) db.files },
      )))
  if n == 0 then raise err_not_found else pure tt

module _ {S : Type 0} (scan_time : S → Time) (json : Json) where
  -- A row of chunk_manifests and the ids that its array holds.
  abbrev manifest_of : ManifestRow S → List ℤ → ChunkManifest
  manifest_of r ids = record {
    id = r.id;
    total_size = r.total_size;
    chunk_count = r.chunk_count;
    chunk_message_ids = ids;
    created_at = scan_time r.created_at;
  }

  -- CreateManifest; chunk_count is an INTEGER, of 32 bits.
  unfoldable pub create_manifest : ChunkManifest → Action (Db S) ChunkManifest
  create_manifest m = do
    r ← wrapping "postgres: insert manifest" (do
      if not (is_int4 m.chunk_count)
          then raise (new "value out of range for type integer")
          else pure tt
      statement (λ db. (
        fresh_manifest db m (json.marshal m.chunk_message_ids),
        insert_manifest m (json.marshal m.chunk_message_ids) db,
      )))
    ids ← wrapping "postgres: unmarshal chunk ids" (lift (json.unmarshal r.chunk_message_ids))
    pure (manifest_of r ids)

  -- GetManifest
  unfoldable pub get_manifest : ℤ → Action (Db S) ChunkManifest
  get_manifest id = do
    row ← wrapping "postgres: get manifest" (query (λ db. find (λ r. r.id ==ℤ id) db.manifests))
    r ← or_not_found row
    ids ← wrapping "postgres: unmarshal chunk ids" (lift (json.unmarshal r.chunk_message_ids))
    pure (manifest_of r ids)

  -- *Store as a store.Store
  abbrev pub postgres : Store (Db S)
  postgres = record {
    ping = ping;
    create_folder = create_folder scan_time;
    get_folder = get_folder scan_time;
    list_folders = list_folders scan_time;
    upsert_file = upsert_file scan_time;
    get_file = get_file scan_time;
    list_files = list_files scan_time;
    delete_file = delete_file;
    create_manifest = create_manifest;
    get_manifest = get_manifest;
  }
