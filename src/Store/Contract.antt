-- ===== src/Store/Contract.antt =====
-- What a store promises to its clients: a map from (account, channel) to folders and one from
-- (folder, message) to files.
pub mod Maps
pub mod Views
mod Outcomes
use telecollection.Prelude.{
  ℤ, ◌==ℤ◌, ◌≡◌, Bool, true, false, ◌&&◌, Option, none, some, List, find, if◌then◌else◌, Result, ok,
  err,
}
use telecollection.Store.{Folder, File, Store}
use telecollection.Store.Sound.{KeepsAll}

-- The maps behind a store, at one state.
pub record View : Type 0 where
  pub folder : ℤ → ℤ → Option Folder
  pub file : ℤ → ℤ → Option File

-- The same maps.
pub record Same (v w : View) : Type 0 where
  pub folder : (x y : ℤ) → w.folder x y ≡ v.folder x y
  pub file : (x y : ℤ) → w.file x y ≡ v.file x y

abbrev pub folder_key : Folder → ℤ → ℤ → Bool
folder_key f x y = (f.tg_account_id ==ℤ x) && (f.channel_id ==ℤ y)

abbrev pub file_key : File → ℤ → ℤ → Bool
file_key f x y = (f.folder_id ==ℤ x) && (f.message_id ==ℤ y)

-- From `v` to `w` by a CreateFolder of `f` that returned `g`.
pub record FolderPut (v w : View) (f g : Folder) : Type 0 where
  pub folder : (x y : ℤ) → w.folder x y ≡ (if folder_key f x y then some g else v.folder x y)
  pub file : (x y : ℤ) → w.file x y ≡ v.file x y
  pub account : g.tg_account_id ≡ f.tg_account_id
  pub channel : g.channel_id ≡ f.channel_id
  pub name : g.name ≡ f.name

-- From `v` to `w` by an UpsertFile of `f` that returned `g`.
pub record FilePut (v w : View) (f g : File) : Type 0 where
  pub folder : (x y : ℤ) → w.folder x y ≡ v.folder x y
  pub file : (x y : ℤ) → w.file x y ≡ (if file_key f x y then some g else v.file x y)
  pub folder_id : g.folder_id ≡ f.folder_id
  pub message_id : g.message_id ≡ f.message_id
  pub name : g.name ≡ f.name
  pub size : g.size ≡ f.size
  pub mime : g.mime ≡ f.mime
  pub manifest : g.chunk_manifest_id ≡ f.chunk_manifest_id
  -- An existing file keeps its id and its creation time.
  pub kept :
      (old : File)
      → v.file f.folder_id f.message_id ≡ some old
      → (g.id ≡ old.id) × (g.created_at ≡ old.created_at)

abbrev pub without_id : ℤ → Option File → Option File
without_id i none = none
without_id i (some f) = if f.id ==ℤ i then none else some f

pub record Contract {D : Type 0} (st : Store D) (Valid : D → Type 0) (view : D → View)
    : Type 0 where
  pub keeps : KeepsAll Valid st
  pub create_folder :
      (f : Folder) (d : D) {g : Folder} {d' : D}
      → Valid d
      → st.create_folder f d ≡ (ok g, d')
      → FolderPut (view d) (view d') f g
  pub list_folders :
      (account : ℤ) (d : D) {fs : List Folder} {d' : D}
      → Valid d
      → st.list_folders account d ≡ (ok fs, d')
      → Same (view d) (view d')
        × ((y : ℤ) → find (λ f. f.channel_id ==ℤ y) fs ≡ (view d).folder account y)
  pub upsert_file :
      (f : File) (d : D) {g : File} {d' : D}
      → Valid d
      → st.upsert_file f d ≡ (ok g, d')
      → FilePut (view d) (view d') f g
  pub list_files :
      (folder : ℤ) (d : D) {fs : List File} {d' : D}
      → Valid d
      → st.list_files folder d ≡ (ok fs, d')
      → Same (view d) (view d')
        × ((y : ℤ) → find (λ f. f.message_id ==ℤ y) fs ≡ (view d).file folder y)
  pub delete_file :
      (i : ℤ) (d : D) {u : Unit {0}} {d' : D}
      → Valid d
      → st.delete_file i d ≡ (ok u, d')
      → ((x y : ℤ) → (view d').folder x y ≡ (view d).folder x y)
        × ((x y : ℤ) → (view d').file x y ≡ without_id i ((view d).file x y))
  -- A file stands under its key, and its id under no other.
  pub file_key :
      (x y : ℤ) (d : D) (f : File)
      → Valid d
      → (view d).file x y ≡ some f
      → (f.folder_id ≡ x) × (f.message_id ≡ y)
  pub file_id :
      (x y x' y' : ℤ) (d : D) (f g : File)
      → Valid d
      → (view d).file x y ≡ some f
      → (view d).file x' y' ≡ some g
      → f.id ≡ g.id
      → f ≡ g
