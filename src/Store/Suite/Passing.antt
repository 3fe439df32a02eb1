-- ===== src/Store/Suite/Passing.antt =====
-- Both stores pass the tests.
use telecollection.Prelude.{
  pos, ◌==ℤ◌, ◌≡◌, refl, Bool, false, Option, List, [], ◌∷◌, All, find, same_text, Result, ok,
}
use telecollection.Store.{Time}
use telecollection.Store.Table.{upsert, select, delete, count, exists}
use telecollection.Store.Engine.{Db, statement, insert_folder, insert_file, insert_manifest}
use telecollection.Store.Sqlite
use telecollection.Store.Sqlite.{Json, parse_time, sqlite}
use telecollection.Store.Postgres
use telecollection.Store.Postgres.{postgres}
use telecollection.Store.Manifests.{RoundTrips}
use telecollection.Store.Suite.{is_not_found, is_zero, contract}

-- A database after the migrations, with no rows.
abbrev pub fresh_db : {S : Type 0} → (now : S) → (burns : Bool) → Db S
fresh_db now burns = record {
  folders = [];
  files = [];
  manifests = [];
  next_folder = 1;
  next_file = 1;
  next_manifest = 1;
  now = now;
  burns = burns;
  faults = [];
}

abbrev pub Passes : List (Result (Unit {0})) → Type 0
Passes = All (λ (r : Result (Unit {0})). r ≡ ok tt)

module _ {S : Type 0} (json : Json) (now : S) (burns : Bool) (trips : RoundTrips json) where
  sqlite-Passes :
      (time_parse : S → Option Time)
      → is_zero (parse_time time_parse now) ≡ false
      → Passes (contract (sqlite time_parse json) (fresh_db now burns))
  unfolding contract same_text is_not_found statement insert_folder insert_file insert_manifest
      upsert select delete count exists find ◌==ℤ◌ Sqlite.ping Sqlite.create_folder
      Sqlite.get_folder Sqlite.list_folders Sqlite.upsert_file Sqlite.get_file Sqlite.list_files
      Sqlite.delete_file Sqlite.create_manifest Sqlite.get_manifest
  sqlite-Passes time_parse dated =
      let three = trips (pos 500 ∷ pos 501 ∷ pos 502 ∷ []) in
      let two = trips (pos 9 ∷ pos 10 ∷ []) in
      (
        refl,
        (
          refl,
          (
            refl,
            (
              refl,
              (
                refl,
                (
                  rw dated refl,
                  (
                    refl,
                    (
                      refl,
                      (
                        refl,
                        (rw (three, dated) (rw three refl), (refl, (rw two refl, (refl, tt)))),
                      ),
                    ),
                  ),
                ),
              ),
            ),
          ),
        ),
      )

  postgres-Passes :
      (scan_time : S → Time)
      → is_zero (scan_time now) ≡ false
      → Passes (contract (postgres scan_time json) (fresh_db now burns))
  unfolding contract same_text is_not_found statement insert_folder insert_file insert_manifest
      upsert select delete count exists find ◌==ℤ◌ Postgres.ping Postgres.create_folder
      Postgres.get_folder Postgres.list_folders Postgres.upsert_file Postgres.get_file
      Postgres.list_files Postgres.delete_file Postgres.create_manifest Postgres.get_manifest
      Postgres.is_int4
  postgres-Passes scan_time dated =
      let three = trips (pos 500 ∷ pos 501 ∷ pos 502 ∷ []) in
      let two = trips (pos 9 ∷ pos 10 ∷ []) in
      (
        refl,
        (
          refl,
          (
            refl,
            (
              refl,
              (
                refl,
                (
                  rw dated refl,
                  (
                    refl,
                    (
                      refl,
                      (
                        refl,
                        (rw (three, dated) (rw three refl), (refl, (rw two refl, (refl, tt)))),
                      ),
                    ),
                  ),
                ),
              ),
            ),
          ),
        ),
      )

-- Both stores pass every test of the suite on a fresh database whose driver shows no fault, whatever
-- the time of the database is and whether its sequences skip ids: if json.Unmarshal undoes json.Marshal,
-- and the time that each store reads is not the zero time.
pub suite-Passes :
    {S : Type 0} (json : Json) (now : S) (burns : Bool) (time_parse : S → Option Time)
    (scan_time : S → Time)
    → RoundTrips json
    → is_zero (parse_time time_parse now) ≡ false
    → is_zero (scan_time now) ≡ false
    → Passes (contract (sqlite time_parse json) (fresh_db now burns))
      × Passes (contract (postgres scan_time json) (fresh_db now burns))
suite-Passes json now burns time_parse scan_time trips dated dated' = (
  sqlite-Passes json now burns trips time_parse dated,
  postgres-Passes json now burns trips scan_time dated',
)
