-- ===== src/Drive/Naming/Tests.antt =====
-- A folder created over a small database, one renamed, and the theorems at them.
use telecollection.Prelude.{
  ℕ, pos, ◌==ℤ◌, ◌≡◌, refl, codes, Option, none, some, [], find, Error, Result, ok, err, panicked,
}
use telecollection.Store.Sound.{IsSound}
use telecollection.Store.Contract.Maps.{view_of}
use telecollection.Store.Contract.Views.{sqlite-Contract}
use telecollection.Store.Engine.{Db, statement, insert_folder}
use telecollection.Store.{Store}
use telecollection.Store
use telecollection.Store.Sqlite
use telecollection.Store.Table
use telecollection.Strings.{
  index, to_lower, has_prefix, is_ascii, lower_byte, trim_left, trim_right, trim_space,
}
use telecollection.Dialogs.{Folder, display_name, strip}
use telecollection.Dialogs
use telecollection.Folders
use telecollection.Examples.{
  ascii, json, time_parse, small_db, small_db-IsSound, store, docs, photos, accepting,
}
use telecollection.Drive.{Conn, ensure_folder}
use telecollection.Drive.Naming.{Indexed, create_folder-Indexed, ensure_folder-rename_folder}
use telecollection.Drive.Service

abbrev conn : Conn ℕ
conn n = (ok (some accepting), n)

abbrev created : Result (Folder × Option Error) × (ℕ × Db ℕ)
created = Service.create_folder ascii conn store (codes "Photos") (0, small_db)

created_ok : created ≡ (ok (photos, none), (2, created.1.1))
unfolding Service.create_folder Folders.create Folders.folder_name Folders.channel_from_updates
    Folders.first_channel ensure_folder Sqlite.list_folders statement find Table.select ◌==ℤ◌
    display_name index to_lower Sqlite.create_folder insert_folder Table.upsert strip has_prefix
    is_ascii lower_byte trim_left trim_right trim_space
created_ok = refl

create_folder-Indexed_example :
    IsSound created.1.1
    × Indexed ascii (view_of time_parse small_db) (view_of time_parse created.1.1) photos
create_folder-Indexed_example =
    create_folder-Indexed ascii conn store (sqlite-Contract time_parse json) (codes "Photos") photos
      0 2 small_db created.1.1 small_db-IsSound created_ok

abbrev old : Store.Folder
old = record {
  id = pos 1;
  tg_account_id = pos 0;
  channel_id = pos 77;
  name = codes "Docs";
  created_at = pos 5;
}

abbrev papers : Folder
papers = record { channel_id = pos 77; access_hash = pos 3; title = codes "Papers [TC]" }

renamed_ok :
    Service.rename_folder ascii conn store docs (codes "Papers") (0, small_db)
    ≡ (ok tt, (1, small_db))
unfolding Service.rename_folder Folders.rename Folders.folder_name display_name index to_lower strip
    has_prefix is_ascii lower_byte trim_left trim_right trim_space
renamed_ok = refl

listed_ok : Service.list_folders ascii conn store (1, small_db) ≡ (ok [], (2, small_db))
unfolding Service.list_folders Dialogs.list
listed_ok = refl

abbrev row_in : Result Store.Folder → Store.Folder
row_in (ok row) = row
row_in (err e) = record old { name = [] }
row_in panicked = record old { name = [] }

abbrev row_after : Store.Folder
row_after = row_in (ensure_folder ascii store papers small_db).0

resolved_ok : ensure_folder ascii store papers small_db ≡ (ok row_after, small_db)
unfolding ensure_folder Sqlite.list_folders statement find Table.select ◌==ℤ◌
resolved_ok = refl

ensure_folder-rename_folder_example : row_after ≡ old
unfolding find Table.select ◌==ℤ◌
ensure_folder-rename_folder_example =
    ensure_folder-rename_folder ascii conn store (sqlite-Contract time_parse json) docs papers
      (codes "Papers") [] old row_after 0 1 2 small_db small_db small_db small_db small_db-IsSound
      refl renamed_ok listed_ok refl resolved_ok
