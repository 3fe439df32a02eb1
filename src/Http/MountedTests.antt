-- ===== src/Http/MountedTests.antt =====
-- Deleting a file of the small database over HTTP.
use telecollection.Prelude.{
  ℕ, ℤ, pos, ◌==ℤ◌, ◌≡◌, refl, find, Bytes, codes, true, Option, none, some, [], ◌∷◌, Result, ok,
}
use telecollection.Telegram.{nil_updates}
use telecollection.Store.Sound.{IsSound}
use telecollection.Store.Contract.Maps.{view_of}
use telecollection.Store.Contract.Views.{sqlite-Contract}
use telecollection.Store.Engine.{Db, statement}
use telecollection.Store.Table
use telecollection.Store.Sqlite
use telecollection.Index
use telecollection.Fileops
use telecollection.Examples.{ascii, json, time_parse, small_db, small_db-IsSound, store, quiet}
use telecollection.Drive.{prune, ensure_folder}
use telecollection.Drive.Effects.{Pruned}
use telecollection.Drive.Service
use telecollection.Http.Response.{Response, FolderJson, fresh, no_headers}
use telecollection.Http.Requests.{DriveDecoders}
use telecollection.Http.DriveRoutes.{delete_files}
use telecollection.Http.Mounted.{Outside, drive_service, delete_files-Pruned}

abbrev docs_json : FolderJson
docs_json = record { channel_id = pos 77; access_hash = pos 3; title = codes "Docs [TC]" }

-- Every body that is not empty names the folder, and message 9.
abbrev unless_empty : {A : Type 0} → A → Bytes → Option A
unless_empty a [] = none
unless_empty a (c ∷ s) = some a

abbrev bodies : DriveDecoders Bytes
bodies = record {
  name = unless_empty (codes "Docs");
  folder = unless_empty docs_json;
  folder_new_name = unless_empty (docs_json, codes "New");
  file_ref = unless_empty (docs_json, pos 9);
  file_ref_name = unless_empty (docs_json, (pos 9, codes "report"));
  file_ref_new_name = unless_empty (docs_json, (pos 9, codes "report"));
  move = unless_empty (docs_json, (pos 9, docs_json));
  form = λ limit memory q s. none;
  parse_int = λ s. none;
  atoi = λ s. none;
  itoa = λ n. codes "9";
}

-- driveService over the small database.
abbrev outside : Outside ℕ Bytes Bytes (Unit {0})
outside = record {
  conn = λ s. (ok (some quiet), s);
  stream_conn = λ s. (ok (some quiet), s);
  rand_int64 = λ s. (pos 5, s);
  upload_bytes = λ api name r size s. (ok r, s);
  send_media = λ api peer file name mime force s. (ok nil_updates, s);
  ctx = record { ctx_err = λ n. none; await = λ d n. (true, n); as_flood_wait = λ e. none };
  location = λ d. tt;
  stream = λ api loc write s. (none, s);
}

abbrev deleting : Result (Unit {0}) × (Response × (ℕ × Db ℕ))
unfolding drive_service
deleting =
    delete_files (drive_service ascii store outside) bodies (codes "{}") (fresh, (0, small_db))

deleting_ok : deleting ≡ (
  ok tt,
  (record { headers = no_headers; sent = some (204, no_headers); body = [] }, (0, deleting.1.1.1)),
)
unfolding deleting delete_files Service.delete_file Fileops.delete prune ensure_folder
    Sqlite.list_folders statement find Table.select ◌==ℤ◌ Index.delete_file Sqlite.list_files
    Sqlite.delete_file Table.count
deleting_ok = refl

delete_files-Pruned_example :
    (f : FolderJson) × (id : ℤ) × (bodies.file_ref (codes "{}") ≡ some (f, id))
    × IsSound deleting.1.1.1
    × Pruned (view_of time_parse small_db) (view_of time_parse deleting.1.1.1) f.channel_id id
unfolding deleting delete_files
delete_files-Pruned_example =
    delete_files-Pruned ascii store (sqlite-Contract time_parse json) outside bodies (codes "{}")
      fresh (record { headers = no_headers; sent = some (204, no_headers); body = [] }) 0 0 small_db
      deleting.1.1.1 small_db-IsSound refl refl deleting_ok
