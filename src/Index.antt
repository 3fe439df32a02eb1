-- ===== src/Index.antt =====
-- internal/index/index.go: the metadata index, a cache in front of a store.
use telecollection.Prelude.{ℤ, ◌==ℤ◌, Option, none, some, List, find, Action, wrapping, pure, ◌>>=◌}
use telecollection.Store.{Folder, File, ChunkManifest, Store}

module _ {D : Type 0} (store : Store D) where
  -- UpsertFolder
  abbrev pub upsert_folder : Folder → Action D Folder
  upsert_folder f = store.create_folder f

  -- ListFolders
  abbrev pub list_folders : ℤ → Action D (List Folder)
  list_folders account = store.list_folders account

  -- UpsertFile
  abbrev pub upsert_file : File → Action D File
  upsert_file f = store.upsert_file f

  -- ListFiles
  abbrev pub list_files : ℤ → Action D (List File)
  list_files folder = store.list_files folder

  -- CreateManifest
  abbrev pub create_manifest : ChunkManifest → Action D ChunkManifest
  create_manifest m = store.create_manifest m

  -- GetManifest
  abbrev pub get_manifest : ℤ → Action D ChunkManifest
  get_manifest id = store.get_manifest id

  -- The first file with the message id, if the loop meets one.
  abbrev pub delete_found : Option File → Action D (Unit {0})
  delete_found none = pure tt
  delete_found (some f) = wrapping "index: deleting file" (store.delete_file f.id)

  -- DeleteFile
  unfoldable pub delete_file : (folder message : ℤ) → Action D (Unit {0})
  delete_file folder message = do
    files ← wrapping "index: listing files to delete" (store.list_files folder)
    delete_found (find (λ f. f.message_id ==ℤ message) files)
