-- ===== src/Drive/Tests.antt =====
-- Runs of the file operations over a small database, and the theorems at concrete inputs.
use telecollection.Prelude.{
  ℕ, ℤ, pos, ◌==ℤ◌, ◌≡◌, refl, codes, Option, none, some, List, [], ◌∷◌, find, map, Error, Result,
  ok,
}
use telecollection.Store.Sound.{IsSound}
use telecollection.Store.Contract.Maps.{view_of}
use telecollection.Store.Contract.Views.{sqlite-Contract}
use telecollection.Store.Engine.{Db, statement, insert_folder, insert_file}
use telecollection.Strings.{
  index, to_lower, has_prefix, is_ascii, lower_byte, trim_left, trim_right, trim_space,
}
use telecollection.Dialogs.{display_name, strip}
use telecollection.Store.{File}
use telecollection.Store.Table
use telecollection.Store.Sqlite
use telecollection.Index
use telecollection.Fileops
use telecollection.Examples.{
  ascii, json, time_parse, small_db, small_db-IsSound, store, docs, photos, accepting, upload_bytes,
  send_media,
}
use telecollection.Drive.{
  Conn, ensure_folder, reindex_renamed_file, reindex_moved_file, prune, list_files_of,
}
use telecollection.Drive.Effects.{Renamed}
use telecollection.Drive.Moves.{Moved}
use telecollection.Drive.Uploads.{Saved, upload_file-Saved}
use telecollection.Drive.Service
use telecollection.Drive.Results.{rename_file-Renamed, move_file-Moved, delete_file-list_files}

abbrev conn : Conn ℕ
conn n = (ok (some accepting), n)

abbrev nonce : ℕ → ℤ × ℕ
nonce n = (pos 12345, n)

abbrev deleted : Result (Unit {0}) × (ℕ × Db ℕ)
deleted = Service.delete_file ascii conn store docs (pos 9) (0, small_db)

abbrev renamed : Result (Unit {0}) × (ℕ × Db ℕ)
renamed = Service.rename_file ascii conn store docs (pos 9) (codes "summary") (0, small_db)

abbrev moved : Result (ℤ × Option Error) × (ℕ × Db ℕ)
moved = Service.move_file ascii conn store nonce docs (pos 9) photos (0, small_db)

abbrev listed : Result (List File) × (ℕ × Db ℕ)
listed = Service.list_files ascii conn store docs deleted.1

deleted_ok : deleted ≡ (ok tt, (1, deleted.1.1))
unfolding Service.delete_file Fileops.delete prune ensure_folder Sqlite.list_folders statement find
    Table.select ◌==ℤ◌ Index.delete_file Sqlite.list_files Sqlite.delete_file Table.count
deleted_ok = refl

renamed_ok : renamed ≡ (ok tt, (1, renamed.1.1))
unfolding Service.rename_file Fileops.rename telecollection.Strings.trim_space reindex_renamed_file
    ensure_folder Sqlite.list_folders statement find Table.select ◌==ℤ◌ Sqlite.list_files
    Sqlite.upsert_file telecollection.Store.Engine.insert_file Table.upsert
renamed_ok = refl

moved_ok : moved ≡ (ok (pos 31, none), (2, moved.1.1))
unfolding Service.move_file Fileops.move Fileops.new_message_id reindex_moved_file ensure_folder
    Sqlite.list_folders statement find Table.select ◌==ℤ◌ Sqlite.list_files display_name index
    to_lower Sqlite.create_folder insert_folder Table.upsert Sqlite.upsert_file strip
    Index.delete_file insert_file Sqlite.get_file Table.exists has_prefix is_ascii lower_byte
    trim_left trim_right trim_space Sqlite.delete_file Table.count Table.delete
moved_ok = refl

listed_ok : listed ≡ (ok [], (1, listed.1.1))
unfolding Service.list_files list_files_of Service.delete_file ensure_folder Fileops.delete
    Sqlite.list_folders statement prune find Table.select ◌==ℤ◌ Index.delete_file Sqlite.list_files
    Sqlite.delete_file Table.count Table.delete
listed_ok = refl

-- The moved file stands in the second folder, and not in the first.
moved_files : map (λ r. r.message_id) moved.1.1.files ≡ pos 31 ∷ []
unfolding Service.move_file Fileops.move Fileops.new_message_id reindex_moved_file ensure_folder
    Sqlite.list_folders statement find Table.select ◌==ℤ◌ Sqlite.list_files display_name index
    to_lower Sqlite.create_folder insert_folder Table.upsert Sqlite.upsert_file strip
    Index.delete_file insert_file Sqlite.get_file Table.exists has_prefix is_ascii lower_byte
    trim_left trim_right trim_space Sqlite.delete_file Table.count Table.delete
moved_files = refl

rename_file-Renamed_example :
    IsSound renamed.1.1
    × Renamed
        (view_of time_parse small_db)
        (view_of time_parse renamed.1.1)
        (pos 77)
        (pos 9)
        (codes "summary")
rename_file-Renamed_example =
    rename_file-Renamed ascii conn store (sqlite-Contract time_parse json) docs (pos 9)
      (codes "summary") 0 1 small_db renamed.1.1 small_db-IsSound renamed_ok

move_file-Moved_example :
    IsSound moved.1.1
    × Moved
        (view_of time_parse small_db)
        (view_of time_parse moved.1.1)
        (pos 77)
        (pos 9)
        (pos 78)
        (pos 31)
move_file-Moved_example =
    move_file-Moved ascii conn store (sqlite-Contract time_parse json) nonce docs (pos 9) photos
      (pos 31) 0 2 small_db moved.1.1 small_db-IsSound moved_ok

delete_file-list_files_example : find (λ (f : File). f.message_id ==ℤ pos 9) [] ≡ none
unfolding Service.delete_file Fileops.delete
delete_file-list_files_example =
    delete_file-list_files ascii conn store (sqlite-Contract time_parse json) docs (pos 9) 0 1 1
      small_db deleted.1.1 listed.1.1 [] small_db-IsSound deleted_ok listed_ok

abbrev uploaded : Result (File × Option Error) × (ℕ × Db ℕ)
uploaded =
    Service.upload_file ascii conn store upload_bytes send_media docs (codes "memo")
      (some (codes "abc")) (pos 3) [] (0, small_db)

abbrev memo : File
memo = record {
  id = pos 2;
  folder_id = pos 1;
  message_id = pos 44;
  name = codes "memo";
  size = pos 3;
  mime = codes "text/plain";
  chunk_manifest_id = pos 0;
  created_at = pos 8;
}

uploaded_ok : uploaded ≡ (ok (memo, none), (2, uploaded.1.1))
unfolding Service.upload_file telecollection.Upload.file telecollection.Upload.parse_sent_document
    ensure_folder Sqlite.list_folders statement find Table.select ◌==ℤ◌ Sqlite.upsert_file
    insert_file Table.upsert
uploaded_ok = refl

upload_file-Saved_example :
    IsSound uploaded.1.1
    × Saved (view_of time_parse small_db) (view_of time_parse uploaded.1.1) (pos 77) memo
upload_file-Saved_example =
    upload_file-Saved ascii conn store (sqlite-Contract time_parse json) upload_bytes send_media
      docs (codes "memo") (some (codes "abc")) (pos 3) [] memo 0 2 small_db uploaded.1.1
      small_db-IsSound uploaded_ok
