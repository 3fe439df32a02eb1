-- ===== src/Drive/Service.antt =====
-- internal/drive/drive.go: the methods of driveService, over the Telegram side and the index.
use telecollection.Prelude.{
  ℤ, pos, Bytes, Bool, is_empty, Option, none, some, List, Result, ok, err, panicked, Action, Error,
  new, wrap, wrapping, refuse_if, raise, pure, ◌>>=◌, ◌>>◌,
}
use telecollection.Strings.{Unicode, trim_space}
use telecollection.Telegram.{Api, InputChannel, Updates, Document}
use telecollection.Store.{File, Store}
use telecollection.Dialogs
use telecollection.Dialogs.{Folder}
use telecollection.Folders
use telecollection.Fileops
use telecollection.Upload
use telecollection.Download
use telecollection.Transfer.{Context, OnProgress, Write}
use telecollection.Transfer.Download.{Stream}
use telecollection.Index.{upsert_file}
use telecollection.Drive.{
  Conn, with_api, remote, local, ensure_folder, list_files_of, reindex_renamed_file,
  reindex_moved_file, prune,
}

-- `x, err := f(); if err != nil { return x, fmt.Errorf("msg: %w", err) }`: the error beside a value
-- that the caller keeps. An outcome is a value and the error beside it.
abbrev pub beside : {A : Type 0} → A → Result (A × Option Error) → Result (A × Option Error)
beside a (ok x) = ok x
beside a (err e) = ok (a, some e)
beside a panicked = panicked

abbrev pub keeping : {S A : Type 0} → A → Action S (A × Option Error) → Action S (A × Option Error)
keeping a m s = let (r, s') = m s in (beside a r, s')

-- A value beside an error becomes that error.
abbrev pub strict : {S A : Type 0} → A × Option Error → Action S A
strict (a, none) = pure a
strict (a, some e) = raise e

module _ (u : Unicode) {T D : Type 0} (conn : Conn T) (store : Store D) where
  -- ListFolders
  unfoldable pub list_folders : Action (T × D) (List Folder)
  list_folders = wrapping "drive: list folders" (remote (with_api conn (Dialogs.list u)))

  abbrev pub create_remote : Bytes → Option (Api T) → Action T Folder
  create_remote name api = Folders.create u api name >>= strict

  abbrev pub index_created : Folder → Action (T × D) (Folder × Option Error)
  index_created created = keeping created (do
    row ← wrapping "drive: indexing new folder" (local (ensure_folder u store created))
    pure (created, none))

  -- CreateFolder; the folder that failed to be indexed stands beside the error.
  unfoldable pub create_folder : Bytes → Action (T × D) (Folder × Option Error)
  create_folder name = do
    refuse_if (is_empty (trim_space u name)) (new "drive: folder name is required")
    created ← wrapping "drive: create folder" (remote (with_api conn (create_remote name)))
    index_created created

  -- RenameFolder
  unfoldable pub rename_folder : Folder → Bytes → Action (T × D) (Unit {0})
  rename_folder folder name = do
    refuse_if (is_empty (trim_space u name)) (new "drive: new folder name is required")
    wrapping "drive: rename folder"
        (remote (with_api conn (λ api. Folders.rename u api folder name)))

  -- DeleteFolder
  unfoldable pub delete_folder : Folder → Action (T × D) (Unit {0})
  delete_folder folder =
      wrapping "drive: delete folder" (remote (with_api conn (λ api. Folders.delete api folder)))

  -- ListFiles
  unfoldable pub list_files : Folder → Action (T × D) (List File)
  list_files folder = local (list_files_of u store folder)

  -- RenameFile
  unfoldable pub rename_file : Folder → ℤ → Bytes → Action (T × D) (Unit {0})
  rename_file folder id name = do
    wrapping "drive: rename file"
        (remote (with_api conn (λ api. Fileops.rename u api folder id name)))
    local (reindex_renamed_file u store folder id name)

  -- DeleteFile
  unfoldable pub delete_file : Folder → ℤ → Action (T × D) (Unit {0})
  delete_file folder id = do
    wrapping "drive: delete file" (remote (with_api conn (λ api. Fileops.delete api folder id)))
    local (prune u store folder id)

  abbrev pub reindexed : Folder → ℤ → Folder → ℤ × Option Error → Action (T × D) (ℤ × Option Error)
  reindexed src id dst (new_id, some e) = pure (new_id, some (wrap "drive: move file" e))
  reindexed src id dst (new_id, none) =
      keeping new_id (do local (reindex_moved_file u store src id dst new_id); pure (new_id, none))

  -- MoveFile; the new id stands beside every error, 0 if there is none.
  unfoldable pub move_file : (T → ℤ × T) → Folder → ℤ → Folder → Action (T × D) (ℤ × Option Error)
  move_file rand_int64 src id dst = do
    moved ← keeping (pos 0) (remote (with_api conn (λ api. Fileops.move rand_int64 api src id dst)))
    reindexed src id dst moved

  abbrev pub save_uploaded : File → Action (T × D) (File × Option Error)
  save_uploaded uploaded = keeping uploaded (do
    saved ← wrapping "drive: indexing uploaded file" (local (upsert_file store uploaded))
    pure (saved, none))

  module _ {R F : Type 0} (upload_bytes : Api T → Bytes → R → ℤ → Action T F)
      (send_media : Api T
        → InputChannel
        → F
        → (filename mime : Bytes) → Bool
        → Action T Updates) where
    -- UploadFile; what was uploaded stands beside the error of the index.
    unfoldable pub upload_file :
        Folder → Bytes → Option R → ℤ → Bytes → Action (T × D) (File × Option Error)
    upload_file folder name r size mime = do
      uploaded ← wrapping "drive: upload file" (
          remote (
            with_api conn (λ api. Upload.file upload_bytes send_media api folder name r size mime)))
      keeping uploaded (do
        f ← wrapping "drive: resolving folder for index" (local (ensure_folder u store folder))
        save_uploaded (record uploaded { folder_id = f.id }))

module _ {V W D L : Type 0} (conn : Conn (V × W)) (ctx : Context W) (location : Document → L)
    (stream : Api (V × W) → L → Stream (ℤ × V) W) where
  -- DownloadFile; `V` is the side of the writer and the callback.
  unfoldable pub download_file :
      Folder → ℤ → Option (Write V) → OnProgress V → Action ((V × W) × D) (Unit {0})
  download_file folder id w on_progress = wrapping "drive: download file" (
      remote (with_api conn (λ api. Download.file ctx location stream api folder id w on_progress)))
