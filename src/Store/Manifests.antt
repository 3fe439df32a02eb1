-- ===== src/Store/Manifests.antt =====
-- A chunk manifest that is stored and read back.
use telecollection.Prelude.{List, ℤ, true, pos, ◌≡◌, refl, Option, ok}
use telecollection.Store.{Time, ChunkManifest}
use telecollection.Store.Engine.{Db, statement, insert_manifest}
use telecollection.Store.Sqlite
use telecollection.Store.Sqlite.{Json, parse_time}
use telecollection.Store.Postgres
use telecollection.Store.Postgres.{is_int4}
use telecollection.Store.Sound.{IsSound}
use telecollection.Store.Rows.{quiet, manifest_by_id}

-- json.Unmarshal reads back what json.Marshal wrote of a []int64.
abbrev pub RoundTrips : Json → Type 0
RoundTrips json = (ids : List ℤ) → json.unmarshal (json.marshal ids) ≡ ok ids

module _ {S : Type 0} (time_parse : S → Option Time) (json : Json) (db : Db S) where
  -- What CreateManifest returns.
  abbrev pub stored : ChunkManifest → ChunkManifest
  stored m = record m { id = pos db.next_manifest; created_at = parse_time time_parse db.now }

  -- On a sound database whose driver shows no fault, and if json.Unmarshal undoes json.Marshal:
  -- CreateManifest of the SQLite store returns the manifest under a new id and the time of the row, and
  -- its GetManifest of that id then returns the same manifest.
  pub create_manifest-get_manifest :
      IsSound db
      → RoundTrips json
      → (m : ChunkManifest)
      → ((Sqlite.create_manifest time_parse json m (quiet db)).0 ≡ ok (stored m))
        × (Sqlite.get_manifest time_parse json
              (stored m).id
              (Sqlite.create_manifest time_parse json m (quiet db)).1
            ≡ Sqlite.create_manifest time_parse json m (quiet db))
  unfolding Sqlite.create_manifest Sqlite.get_manifest statement insert_manifest
  create_manifest-get_manifest sound trips m =
      rw (manifest_by_id db sound m (json.marshal m.chunk_message_ids)) (
        rw (trips m.chunk_message_ids) (
          refl,
          rw (manifest_by_id db sound m (json.marshal m.chunk_message_ids))
              (rw (trips m.chunk_message_ids)),
        ))

  -- On a sound database whose driver shows no fault, if json.Unmarshal undoes json.Marshal and the
  -- chunk count is one of 32 bits: CreateManifest of the Postgres store returns the manifest under a new id
  -- and the time of the row, and its GetManifest of that id then returns the same manifest.
  pub create_manifest-get_manifest_postgres :
      IsSound db
      → RoundTrips json
      → (m : ChunkManifest) → is_int4 m.chunk_count ≡ true
      → ((Postgres.create_manifest (parse_time time_parse) json m (quiet db)).0 ≡ ok (stored m))
        × (Postgres.get_manifest
              (parse_time time_parse)
              json
              (stored m).id
              (Postgres.create_manifest (parse_time time_parse) json m (quiet db)).1
            ≡ Postgres.create_manifest (parse_time time_parse) json m (quiet db))
  unfolding Postgres.create_manifest Postgres.get_manifest statement insert_manifest
  create_manifest-get_manifest_postgres sound trips m fits = rw fits (
      rw (trips m.chunk_message_ids) (
        refl,
        rw (manifest_by_id db sound m (json.marshal m.chunk_message_ids))
            (rw (trips m.chunk_message_ids)),
      ))
