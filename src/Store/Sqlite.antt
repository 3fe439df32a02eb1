-- ===== src/Store/Sqlite.antt =====
-- internal/store/sqlite/sqlite.go: each method is the statements it runs, in order.
use telecollection.Prelude.{
  ℤ, pos, ◌==ℤ◌, Bytes, Option, none, some, List, map, find, ◌==◌, if◌then◌else◌, Result, lift,
  Error, new, Action, raise, pure, wrapping, ◌>>=◌, ◌>>◌,
}
use telecollection.Store.{Time, zero_time, Folder, File, ChunkManifest, Store, err_not_found}
use telecollection.Store.Table.{select, delete, count}
use telecollection.Store.Engine.{
  Db, FolderRow, FileRow, statement, query, is_folder, is_file, insert_folder, insert_file,
  insert_manifest,
}

-- sql.ErrNoRows
abbrev err_no_rows : Error
err_no_rows = new "sql: no rows in result set"

-- encoding/json on []int64.
pub record Json : Type 0 where
  pub marshal : List ℤ → Bytes
  pub unmarshal : Bytes → Result (List ℤ)

-- nullableID, and the Int64 of a sql.NullInt64 read back.
abbrev pub nullable_id : ℤ → Option ℤ
nullable_id id = if id ==ℤ pos 0 then none else some id

abbrev pub int64_of : Option ℤ → ℤ
int64_of none = pos 0
int64_of (some id) = id

-- The error of Scan when there is no row.
abbrev pub or_no_rows : {S A : Type 0} → Option A → Action S A
or_no_rows none = raise err_no_rows
or_no_rows (some a) = pure a

-- case errors.Is(err, sql.ErrNoRows): return …, store.ErrNotFound
abbrev pub or_not_found : {S A : Type 0} → Option A → Action S A
or_not_found none = raise err_not_found
or_not_found (some a) = pure a

-- Ping
unfoldable pub ping : {S : Type 0} → Action (Db S) (Unit {0})
ping = query (λ db. tt)

-- DeleteFile; RowsAffected may fail too.
unfoldable pub delete_file : {S : Type 0} → ℤ → Action (Db S) (Unit {0})
delete_file id = do
  n ← wrapping "sqlite: delete file" (
      statement (λ db. (
        count (λ r. r.id ==ℤ id) db.files,
        record db { files = delete (λ r. r.id ==ℤ id) db.files },
      )))
  wrapping "sqlite: rows affected" (query (λ db. tt))
  if n == 0 then raise err_not_found else pure tt

module _ {S : Type 0} (time_parse : S → Option Time) where
  -- parseTime; `time_parse` is time.Parse with the layout of the column.
  abbrev pub parse_time : S → Time
  parse_time s = elim (time_parse s) [ none ↦ zero_time | some t ↦ t ]

  -- The row as it is scanned.
  abbrev pub scan_folder : FolderRow S → Folder
  scan_folder r = record {
    id = r.id;
    tg_account_id = r.tg_account_id;
    channel_id = r.channel_id;
    name = r.name;
    created_at = parse_time r.created_at;
  }

  abbrev pub scan_file : FileRow S → File
  scan_file r = record {
    id = r.id;
    folder_id = r.folder_id;
    message_id = r.message_id;
    name = r.name;
    size = r.size;
    mime = r.mime;
    chunk_manifest_id = int64_of r.chunk_manifest_id;
    created_at = parse_time r.created_at;
  }

  -- GetFolder
  unfoldable pub get_folder : ℤ → Action (Db S) Folder
  get_folder id = do
    row ← wrapping "sqlite: get folder" (query (λ db. find (λ r. r.id ==ℤ id) db.folders))
    r ← or_not_found row
    pure (scan_folder r)

  -- CreateFolder
  unfoldable pub create_folder : Folder → Action (Db S) Folder
  unfolding get_folder
  create_folder f = do
    wrapping "sqlite: upsert folder" (statement (λ db. (tt, insert_folder f db)))
    r ← wrapping "sqlite: resolve upserted folder id" (do
      row ← query (λ db. find (is_folder f.tg_account_id f.channel_id) db.folders)
      or_no_rows row)
    get_folder r.id

  -- ListFolders, ordered by id; rows.Err() is read after the loop.
  unfoldable pub list_folders : ℤ → Action (Db S) (List Folder)
  list_folders account = do
    rows ←
        wrapping "sqlite: list folders"
          (query (λ db. select (λ r. r.tg_account_id ==ℤ account) db.folders))
    wrapping "sqlite: rows" (query (λ db. tt))
    pure (map scan_folder rows)

  -- GetFile
  unfoldable pub get_file : ℤ → Action (Db S) File
  get_file id = do
    row ← wrapping "sqlite: get file" (query (λ db. find (λ r. r.id ==ℤ id) db.files))
    r ← or_not_found row
    pure (scan_file r)

  -- UpsertFile
  unfoldable pub upsert_file : File → Action (Db S) File
  unfolding get_file
  upsert_file f = do
    wrapping "sqlite: upsert file"
        (statement (λ db. (tt, insert_file f (nullable_id f.chunk_manifest_id) db)))
    r ←
        wrapping "sqlite: resolve upserted file id"
          (do row ← query (λ db. find (is_file f.folder_id f.message_id) db.files); or_no_rows row)
    get_file r.id

  -- ListFiles, ordered by id
  unfoldable pub list_files : ℤ → Action (Db S) (List File)
  list_files folder = do
    rows ←
        wrapping "sqlite: list files" (query (λ db. select (λ r. r.folder_id ==ℤ folder) db.files))
    wrapping "sqlite: rows" (query (λ db. tt))
    pure (map scan_file rows)

module _ {S : Type 0} (time_parse : S → Option Time) (json : Json) where
  -- GetManifest
  unfoldable pub get_manifest : ℤ → Action (Db S) ChunkManifest
  get_manifest id = do
    row ← wrapping "sqlite: get manifest" (query (λ db. find (λ r. r.id ==ℤ id) db.manifests))
    r ← or_not_found row
    ids ← wrapping "sqlite: unmarshal chunk ids" (lift (json.unmarshal r.chunk_message_ids))
    pure (record {
      id = r.id;
      total_size = r.total_size;
      chunk_count = r.chunk_count;
      chunk_message_ids = ids;
      created_at = parse_time time_parse r.created_at;
    })

  -- CreateManifest; json.Marshal of integers does not fail, and LastInsertId may.
  unfoldable pub create_manifest : ChunkManifest → Action (Db S) ChunkManifest
  unfolding get_manifest
  create_manifest m = do
    id ← wrapping "sqlite: insert manifest" (
        statement
          (λ db. (pos db.next_manifest, insert_manifest m (json.marshal m.chunk_message_ids) db)))
    wrapping "sqlite: manifest last insert id" (query (λ db. tt))
    get_manifest id

  -- *Store as a store.Store
  abbrev pub sqlite : Store (Db S)
  sqlite = record {
    ping = ping;
    create_folder = create_folder time_parse;
    get_folder = get_folder time_parse;
    list_folders = list_folders time_parse;
    upsert_file = upsert_file time_parse;
    get_file = get_file time_parse;
    list_files = list_files time_parse;
    delete_file = delete_file;
    create_manifest = create_manifest;
    get_manifest = get_manifest;
  }
