-- ===== src/Store.antt =====
-- internal/store/store.go and models.go: the domain types, the sentinel errors and the interface.
pub mod Table
pub mod Engine
pub mod Sqlite
pub mod Postgres
mod Ascending
mod Keys
pub mod Sound
pub mod Rows
pub mod Manifests
pub mod Contract
pub mod Suite
pub mod Opening
mod Tests
use telecollection.Prelude.{ℤ, negsuc, Bytes, List, Error, new, Action}

-- time.Time, as seconds of the Unix epoch; the zero value is the start of the year 1.
abbrev pub Time : Type 0
Time = ℤ

abbrev pub zero_time : Time
zero_time = negsuc 62135596799

-- Folder
pub record Folder : Type 0 where
  pub id : ℤ
  pub tg_account_id : ℤ
  pub channel_id : ℤ
  pub name : Bytes
  pub created_at : Time

-- File; a zero chunk_manifest_id is a file without a manifest.
pub record File : Type 0 where
  pub id : ℤ
  pub folder_id : ℤ
  pub message_id : ℤ
  pub name : Bytes
  pub size : ℤ
  pub mime : Bytes
  pub chunk_manifest_id : ℤ
  pub created_at : Time

-- ChunkManifest
pub record ChunkManifest : Type 0 where
  pub id : ℤ
  pub total_size : ℤ
  pub chunk_count : ℤ
  pub chunk_message_ids : List ℤ
  pub created_at : Time

-- ErrNotFound; the code never returns ErrConflict.
abbrev pub err_not_found : Error
err_not_found = new "store: not found"

-- Store, over the state `D` of what is behind it.
pub record Store (D : Type 0) : Type 0 where
  pub ping : Action D (Unit {0})
  pub create_folder : Folder → Action D Folder
  pub get_folder : ℤ → Action D Folder
  pub list_folders : ℤ → Action D (List Folder)
  pub upsert_file : File → Action D File
  pub get_file : ℤ → Action D File
  pub list_files : ℤ → Action D (List File)
  pub delete_file : ℤ → Action D (Unit {0})
  pub create_manifest : ChunkManifest → Action D ChunkManifest
  pub get_manifest : ℤ → Action D ChunkManifest
