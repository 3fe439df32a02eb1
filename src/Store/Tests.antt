-- ===== src/Store/Tests.antt =====
-- Runs of the store, and the theorems at concrete inputs.
use telecollection.Prelude.{
  sym, ap, pos, negsuc, ◌==ℤ◌, ◌≡◌, refl, arith, some, [], ◌∷◌, new, wrap, find, ok, err, ℕ, Error,
}
use telecollection.Examples.{json, time_parse, small_db, read-write}
use telecollection.Store.{ChunkManifest, err_not_found}
use telecollection.Store.Contract.{Contract}
use telecollection.Store.Contract.Maps.{view_of}
use telecollection.Store.Contract.Views.{sqlite-Contract, postgres-Contract}
use telecollection.Store.Opening.{Drivers, Process, open_sqlite, open_postgres}
use telecollection.Store.Opening.Handles.{
  Goose, Documented, sqlite_migrations, postgres_migrations, open-handles,
}
use telecollection.Store.Engine.{statement}
use telecollection.Store.Sqlite
use telecollection.Store.Sqlite.{sqlite, parse_time}
use telecollection.Store.Postgres
use telecollection.Store.Postgres.{postgres}
use telecollection.Store.Sound.{IsSound}
use telecollection.Store.Rows.{quiet}
use telecollection.Store.Manifests.{
  stored, create_manifest-get_manifest, create_manifest-get_manifest_postgres,
}

sound : IsSound small_db
sound = (
  (1, refl, omega arith, omega arith),
  (unfold find in refl, tt),
  (1, refl, omega arith, omega arith),
  (unfold find in refl, tt),
  omega arith,
)

delete_missing : Sqlite.delete_file (pos 4) small_db ≡ (err err_not_found, small_db)
unfolding Sqlite.delete_file statement telecollection.Store.Table.count ◌==ℤ◌
    telecollection.Store.Table.delete
delete_missing = refl

get_unreachable :
    Sqlite.get_file time_parse
      (pos 1)
      (record small_db { faults = some (new "database is locked") ∷ [] })
    ≡ (err (wrap "sqlite: get file" (new "database is locked")), small_db)
unfolding Sqlite.get_file statement
get_unreachable = refl

abbrev chunks : ChunkManifest
chunks = record {
  id = pos 0;
  total_size = pos 3000;
  chunk_count = pos 2;
  chunk_message_ids = pos 11 ∷ negsuc 3 ∷ [];
  created_at = pos 0;
}

sqlite-Contract_example : Contract (sqlite time_parse json) IsSound (view_of time_parse)
sqlite-Contract_example = sqlite-Contract time_parse json

create_manifest-get_manifest_example :
    ((Sqlite.create_manifest time_parse json chunks (quiet small_db)).0
      ≡ ok (stored time_parse json small_db chunks))
    × (Sqlite.get_manifest time_parse json
          (pos 1)
          (Sqlite.create_manifest time_parse json chunks (quiet small_db)).1
        ≡ Sqlite.create_manifest time_parse json chunks (quiet small_db))
create_manifest-get_manifest_example =
    create_manifest-get_manifest time_parse json small_db sound read-write chunks

create_manifest-get_manifest_postgres_example :
    ((Postgres.create_manifest (parse_time time_parse) json chunks (quiet small_db)).0
      ≡ ok (stored time_parse json small_db chunks))
    × (Postgres.get_manifest
          (parse_time time_parse)
          json
          (pos 1)
          (Postgres.create_manifest (parse_time time_parse) json chunks (quiet small_db)).1
        ≡ Postgres.create_manifest (parse_time time_parse) json chunks (quiet small_db))
create_manifest-get_manifest_postgres_example =
    create_manifest-get_manifest_postgres time_parse json small_db sound read-write chunks
      (unfold Postgres.is_int4 in refl)

postgres-Contract_example :
    Contract
      (postgres (parse_time time_parse) json)
      IsSound
      (view_of (λ s. some (parse_time time_parse s)))
postgres-Contract_example = postgres-Contract (parse_time time_parse) json

-- A goose that records what it applies; Postgres is not there.
abbrev recording : Drivers Goose
recording = record {
  sql_open = λ driver dsn g. (ok tt, g);
  set_base_fs = λ fs g. record g { fs = fs };
  set_dialect = λ dialect g. (ok tt, record g { dialect = dialect });
  goose_up = λ h dir g. (
    ok tt,
    record g {
      applied = record { handle = h; fs = g.fs; dialect = g.dialect; dir = dir } ∷ g.applied;
    },
  );
  new_pool = λ dsn g. (err (new "connection refused"), g);
}

recording-Documented : Documented recording (λ g. g)
recording-Documented = record {
  set_base_fs = λ fs g. refl;
  set_dialect = λ dialect g e. sym (ap (λ x. x.1) e);
  goose_up = λ h dir g e. sym (ap (λ x. x.1.applied) e);
  sql_open = λ driver dsn g. refl;
  new_pool = λ dsn g. refl;
}

abbrev idle : Process Goose
idle = record {
  world = record { fs = []; dialect = []; applied = [] };
  handles = [];
  next_handle = 4;
}

open-handles_example :
    ((h : ℕ)
      → (open_sqlite recording [] idle).0 ≡ ok h
      → ((open_sqlite recording [] idle).1.handles ≡ h ∷ [])
        × ((open_sqlite recording [] idle).1.world.applied ≡ sqlite_migrations h ∷ []))
    × ((e : Error)
        → (open_sqlite recording [] idle).0 ≡ err e
        → (open_sqlite recording [] idle).1.handles ≡ [])
    × ((open_postgres recording [] idle).1.handles ≡ [])
    × ((open_postgres recording [] idle).0 ≡ ok tt
        → (open_postgres recording [] idle).1.world.applied ≡ postgres_migrations 4 ∷ [])
open-handles_example = open-handles recording (λ g. g) [] idle recording-Documented

opened_run : (open_sqlite recording [] idle).0 ≡ ok 4
unfolding open_sqlite telecollection.Store.Opening.open_sql telecollection.Store.Opening.up_sqlite
opened_run = refl
