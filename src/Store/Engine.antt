-- ===== src/Store/Engine.antt =====
-- The database that the SQL texts of internal/store/sqlite/sqlite.go and
-- internal/store/postgres/postgres.go run on, with the tables of internal/store/migrate: rows in the
-- order of their ids, AUTOINCREMENT or BIGSERIAL counters, unique keys, and a script of faults.
use telecollection.Prelude.{
  ◌≡◌, ◌⊎◌, inl, inr, ap, ok-injective, ℕ, suc, ℤ, pos, ◌==ℤ◌, Bytes, Bool, ◌&&◌, not, Option, none,
  some, List, [], ◌∷◌, ◌++◌, if◌then◌else◌, Result, ok, err, Error, Action,
}
use telecollection.Store.{Folder, File, ChunkManifest}
use telecollection.Store.Table.{upsert, exists}

-- `S` is what the driver hands out for a created_at column.
pub record FolderRow (S : Type 0) : Type 0 where
  pub id : ℤ
  pub tg_account_id : ℤ
  pub channel_id : ℤ
  pub name : Bytes
  pub created_at : S

pub record FileRow (S : Type 0) : Type 0 where
  pub id : ℤ
  pub folder_id : ℤ
  pub message_id : ℤ
  pub name : Bytes
  pub size : ℤ
  pub mime : Bytes
  pub chunk_manifest_id : Option ℤ
  pub created_at : S

pub record ManifestRow (S : Type 0) : Type 0 where
  pub id : ℤ
  pub total_size : ℤ
  pub chunk_count : ℤ
  pub chunk_message_ids : Bytes
  pub created_at : S

-- `now` is the default of created_at. `burns` says whether an insert that takes the conflict path
-- uses an id up: a sequence of Postgres does. Each statement takes the next fault of the script;
-- behind its end no statement fails.
pub record Db (S : Type 0) : Type 0 where
  pub folders : List (FolderRow S)
  pub files : List (FileRow S)
  pub manifests : List (ManifestRow S)
  pub next_folder : ℕ
  pub next_file : ℕ
  pub next_manifest : ℕ
  pub now : S
  pub burns : Bool
  pub faults : List (Option Error)

abbrev answer : {S A : Type 0} → Option Error → A × Db S → Db S → Result A × Db S
answer none (a, db') db = (ok a, db')
answer (some e) r db = (err e, db)

abbrev run_with : {S A : Type 0} → List (Option Error) → (Db S → A × Db S) → Action (Db S) A
run_with [] run db = let (a, db') = run db in (ok a, db')
run_with (f ∷ rest) run db =
    answer f (run (record db { faults = rest })) (record db { faults = rest })

-- The counter after an insert that may have taken the conflict path.
abbrev pub advance : (conflict burns : Bool) → ℕ → ℕ
advance conflict burns n = if conflict && not burns then n else suc n

module _ {S : Type 0} where
  -- One round trip: the driver's error, or the statement's answer and effect.
  unfoldable pub statement : {A : Type 0} → (Db S → A × Db S) → Action (Db S) A
  statement run db = run_with db.faults run db

  -- A statement that reads.
  abbrev pub query : {A : Type 0} → (Db S → A) → Action (Db S) A
  query read = statement (λ db. (read db, db))

  -- tg_account_id = ? AND channel_id = ?
  abbrev pub is_folder : ℤ → ℤ → FolderRow S → Bool
  is_folder account channel r = (r.tg_account_id ==ℤ account) && (r.channel_id ==ℤ channel)

  -- folder_id = ? AND message_id = ?
  abbrev pub is_file : ℤ → ℤ → FileRow S → Bool
  is_file folder message r = (r.folder_id ==ℤ folder) && (r.message_id ==ℤ message)

  abbrev pub fresh_folder : Db S → Folder → FolderRow S
  fresh_folder db f = record {
    id = pos db.next_folder;
    tg_account_id = f.tg_account_id;
    channel_id = f.channel_id;
    name = f.name;
    created_at = db.now;
  }

  -- INSERT INTO folders … ON CONFLICT(tg_account_id, channel_id) DO UPDATE SET name = excluded.name
  unfoldable pub insert_folder : Folder → Db S → Db S
  insert_folder f db =
      let same = is_folder f.tg_account_id f.channel_id in
      record db {
        folders = upsert same (λ r. record r { name = f.name }) (fresh_folder db f) db.folders;
        next_folder = advance (exists same db.folders) db.burns db.next_folder;
      }

  abbrev pub fresh_file : Db S → File → Option ℤ → FileRow S
  fresh_file db f manifest = record {
    id = pos db.next_file;
    folder_id = f.folder_id;
    message_id = f.message_id;
    name = f.name;
    size = f.size;
    mime = f.mime;
    chunk_manifest_id = manifest;
    created_at = db.now;
  }

  abbrev pub changed_file : File → Option ℤ → FileRow S → FileRow S
  changed_file f manifest r = record r {
    name = f.name;
    size = f.size;
    mime = f.mime;
    chunk_manifest_id = manifest;
  }

  -- INSERT INTO files … ON CONFLICT(folder_id, message_id) DO UPDATE SET …
  unfoldable pub insert_file : File → Option ℤ → Db S → Db S
  insert_file f manifest db =
      let same = is_file f.folder_id f.message_id in
      record db {
        files = upsert same (changed_file f manifest) (fresh_file db f manifest) db.files;
        next_file = advance (exists same db.files) db.burns db.next_file;
      }

  abbrev pub fresh_manifest : Db S → ChunkManifest → Bytes → ManifestRow S
  fresh_manifest db m ids = record {
    id = pos db.next_manifest;
    total_size = m.total_size;
    chunk_count = m.chunk_count;
    chunk_message_ids = ids;
    created_at = db.now;
  }

  -- INSERT INTO chunk_manifests …
  unfoldable pub insert_manifest : ChunkManifest → Bytes → Db S → Db S
  insert_manifest m ids db = record db {
    manifests = db.manifests ++ fresh_manifest db m ids ∷ [];
    next_manifest = suc db.next_manifest;
  }

module _ {S A : Type 0} (run : Db S → A × Db S) where
  run_with-ok :
      (l : List (Option Error)) (db : Db S) {a : A} {db' : Db S}
      → run_with l run db ≡ (ok a, db')
      → (run db ≡ (a, db'))
        ⊎ ((fs : List (Option Error)) × (run (record db { faults = fs }) ≡ (a, db')))
  run_with-ok [] db h = inl (λ i. (ok-injective (ap (λ p. p.0) h) i, (h i).1))
  run_with-ok (none ∷ rest) db h = inr (rest, λ i. (ok-injective (ap (λ p. p.0) h) i, (h i).1))
  run_with-ok (some e ∷ rest) db h = cc

  -- A statement that answers has had its effect, at some rest of the script.
  pub statement-ok :
      (db : Db S) {a : A} {db' : Db S}
      → statement run db ≡ (ok a, db')
      → (fs : List (Option Error)) × (run (record db { faults = fs }) ≡ (a, db'))
  unfolding statement
  statement-ok db h = elim (run_with-ok db.faults db h) [ inl e ↦ (db.faults, e) | inr r ↦ r ]

  run_with-keeps :
      (P : Db S → Type 0)
      → ((db : Db S) (fs : List (Option Error)) → P db → P (record db { faults = fs }))
      → ((db : Db S) → P db → P (run db).1)
      → (l : List (Option Error)) (db : Db S) → P db
      → P (run_with l run db).1
  run_with-keeps P same keep [] db h = keep db h
  run_with-keeps P same keep (none ∷ rest) db h = keep _ (same db rest h)
  run_with-keeps P same keep (some e ∷ rest) db h = same db rest h

  -- A statement keeps what its effect keeps, if the script of faults does not matter.
  pub statement-keeps :
      (P : Db S → Type 0)
      → ((db : Db S) (fs : List (Option Error)) → P db → P (record db { faults = fs }))
      → ((db : Db S) → P db → P (run db).1)
      → (db : Db S) → P db
      → P (statement run db).1
  unfolding statement
  statement-keeps P same keep db = run_with-keeps P same keep db.faults db
