-- ===== src/Drive.antt =====
-- internal/drive/drive.go: each operation is a call of Telegram inside the connection, and then an
-- update of the index.
pub mod Reindex
pub mod Effects
pub mod Moves
pub mod Service
pub mod Results
pub mod Uploads
pub mod Naming
mod Tests
use mathlib.Core.Option
use telecollection.Prelude.{
  ℤ, pos, ◌==ℤ◌, Bytes, is_empty, Option, none, some, List, find, Result, ok, err, panicked, Action,
  Error, new, wrap, wrapping, refuse_if, lift, raise, pure, ◌>>=◌, ◌>>◌,
}
use telecollection.Strings.{Unicode, trim_space}
use telecollection.Telegram.{Api}
use telecollection.Store.{File, Store, zero_time}
use telecollection.Store
use telecollection.Dialogs
use telecollection.Dialogs.{Folder, display_name}
use telecollection.Folders
use telecollection.Folders.{from_slicing}
use telecollection.Fileops
use telecollection.Index.{upsert_folder, list_folders, upsert_file, list_files}
use telecollection.Index

abbrev index_account_id : ℤ
index_account_id = pos 0

-- Conn, of which this repository has no implementation but a test's: WithAPI fails before it runs the
-- operation, or runs it with the client it hands out and returns its error.
abbrev pub Conn : Type 0 → Type 0
Conn T = Action T (Option (Api T))

abbrev with_api : {T A : Type 0} → Conn T → (Option (Api T) → Action T A) → Action T A
with_api conn run = conn >>= run

-- A step on the Telegram side, or on the index.
abbrev pub remote : {T D A : Type 0} → Action T A → Action (T × D) A
remote m (t, d) = let (r, t') = m t in (r, (t', d))

abbrev pub local : {T D A : Type 0} → Action D A → Action (T × D) A
local m (t, d) = let (r, d') = m d in (r, (t, d'))

module _ (u : Unicode) {D : Type 0} (store : Store D) where
  abbrev pub folder_entry : Folder → Bytes → Store.Folder
  folder_entry folder name = record {
    id = pos 0;
    tg_account_id = index_account_id;
    channel_id = folder.channel_id;
    name = name;
    created_at = zero_time;
  }

  abbrev pub or_record : Folder → Option Store.Folder → Action D Store.Folder
  or_record folder (some f) = pure f
  or_record folder none = do
    name ← lift (from_slicing (display_name u folder.title))
    wrapping "drive: recording folder in index" (upsert_folder store (folder_entry folder name))

  -- ensureFolder
  unfoldable pub ensure_folder : Folder → Action D Store.Folder
  ensure_folder folder = do
    existing ← wrapping "drive: reading indexed folders" (list_folders store index_account_id)
    or_record folder (find (λ f. f.channel_id ==ℤ folder.channel_id) existing)

  -- ListFiles
  unfoldable pub list_files_of : Folder → Action D (List File)
  list_files_of folder = do
    f ← ensure_folder folder
    wrapping "drive: listing files" (list_files store f.id)

  abbrev pub put_renamed : Bytes → Option File → Action D (Unit {0})
  put_renamed name none = pure tt
  put_renamed name (some file) = do
    saved ←
        wrapping "drive: updating index after rename"
          (upsert_file store (record file { name = name }))
    pure tt

  -- reindexRenamedFile
  unfoldable pub reindex_renamed_file : Folder → ℤ → Bytes → Action D (Unit {0})
  reindex_renamed_file folder id name = do
    f ← ensure_folder folder
    files ← wrapping "drive: reading index for rename" (list_files store f.id)
    put_renamed name (find (λ f. f.message_id ==ℤ id) files)

  abbrev pub moved_entry : ℤ → ℤ → File → File
  moved_entry folder_id message_id moved = record {
    id = pos 0;
    folder_id = folder_id;
    message_id = message_id;
    name = moved.name;
    size = moved.size;
    mime = moved.mime;
    chunk_manifest_id = pos 0;
    created_at = zero_time;
  }

  abbrev pub put_moved : Store.Folder → ℤ → Folder → ℤ → Option File → Action D (Unit {0})
  put_moved src_folder id dst new_id none = pure tt
  put_moved src_folder id dst new_id (some moved) = do
    dst_folder ← ensure_folder dst
    saved ←
        wrapping "drive: updating index after move"
          (upsert_file store (moved_entry dst_folder.id new_id moved))
    wrapping "drive: pruning source index after move" (Index.delete_file store src_folder.id id)

  -- reindexMovedFile
  unfoldable pub reindex_moved_file : Folder → ℤ → Folder → ℤ → Action D (Unit {0})
  reindex_moved_file src id dst new_id = do
    src_folder ← ensure_folder src
    files ← wrapping "drive: reading index for move" (list_files store src_folder.id)
    put_moved src_folder id dst new_id (find (λ f. f.message_id ==ℤ id) files)

  -- What DeleteFile does behind the network delete.
  unfoldable pub prune : Folder → ℤ → Action D (Unit {0})
  prune folder id = do
    f ← ensure_folder folder
    wrapping "drive: pruning index after delete" (Index.delete_file store f.id id)
