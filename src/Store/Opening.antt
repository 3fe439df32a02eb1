-- ===== src/Store/Opening.antt =====
-- Open of internal/store/sqlite/sqlite.go and internal/store/postgres/postgres.go, and
-- internal/store/migrate/migrate.go. A section under gooseMu is one action.
pub mod Handles
use telecollection.Prelude.{
  ℕ, suc, ◌==◌, Bytes, codes, List, [], ◌∷◌, if◌then◌else◌, Result, ok, err, panicked, Action, pure,
  wrapping, ◌>>=◌, ◌>>◌,
}

-- database/sql, goose and pgxpool, over a state of their own. goose keeps the file system and the
-- dialect in that state.
pub record Drivers (S : Type 0) : Type 0 where
  pub sql_open : (driver dsn : Bytes) → Action S (Unit {0})
  pub set_base_fs : Bytes → S → S
  pub set_dialect : Bytes → Action S (Unit {0})
  pub goose_up : (handle : ℕ) → (dir : Bytes) → Action S (Unit {0})
  pub new_pool : (dsn : Bytes) → Action S (Unit {0})

-- The process: the handles that are open, by numbers.
pub record Process (S : Type 0) : Type 0 where
  pub world : S
  pub handles : List ℕ
  pub next_handle : ℕ

abbrev pub removed : ℕ → List ℕ → List ℕ
removed h [] = []
removed h (x ∷ l) = if x == h then l else x ∷ removed h l

module _ {S : Type 0} where
  -- A call of a driver.
  abbrev pub outside : {A : Type 0} → Action S A → Action (Process S) A
  outside m p = let (r, s) = m p.world in (r, record p { world = s })

  abbrev opened : Result (Unit {0}) → S → Process S → Result ℕ × Process S
  opened (ok a) s p = (
    ok p.next_handle,
    record p { world = s; handles = p.next_handle ∷ p.handles; next_handle = suc p.next_handle },
  )
  opened (err e) s p = (err e, record p { world = s })
  opened panicked s p = (panicked, record p { world = s })

  -- db.Close(), whose error is dropped
  unfoldable pub close : ℕ → Process S → Process S
  close h p = record p { handles = removed h p.handles }

  abbrev closed_on_error : {A : Type 0} → ℕ → Result A → Process S → Process S
  closed_on_error h (ok a) p = p
  closed_on_error h (err e) p = close h p
  closed_on_error h panicked p = p

  -- if err := …; err != nil { _ = db.Close(); return …, err }
  abbrev pub or_close : {A : Type 0} → ℕ → Action (Process S) A → Action (Process S) A
  or_close h m p = let (r, p') = m p in (r, closed_on_error h r p')

  -- defer func() { _ = db.Close() }()
  abbrev pub close_after : {A : Type 0} → ℕ → Action (Process S) A → Action (Process S) A
  close_after h m p = let (r, p') = m p in (r, close h p')

module _ {S : Type 0} (drivers : Drivers S) where
  open drivers use {sql_open, set_base_fs, set_dialect, goose_up, new_pool}

  unfoldable pub open_sql : (driver dsn : Bytes) → Action (Process S) ℕ
  open_sql driver dsn p = let (r, s) = sql_open driver dsn p.world in opened r s p

  -- up
  unfoldable pub up : (handle : ℕ) → (fs dir dialect : Bytes) → Action (Process S) (Unit {0})
  up handle fs dir dialect = do
    outside (λ s. (ok tt, set_base_fs fs s))
    wrapping "migrate: set dialect" (outside (set_dialect dialect))
    wrapping "migrate: up" (outside (goose_up handle dir))

  -- UpSQLite
  unfoldable pub up_sqlite : ℕ → Action (Process S) (Unit {0})
  unfolding up
  up_sqlite handle = up handle (codes "sqliteFS") (codes "sqlite") (codes "sqlite3")

  -- UpPostgres
  unfoldable pub up_postgres : ℕ → Action (Process S) (Unit {0})
  unfolding up
  up_postgres handle = up handle (codes "postgresFS") (codes "postgres") (codes "postgres")

  -- sqlite.Open, with the handle of the store that it returns.
  unfoldable pub open_sqlite : (dsn : Bytes) → Action (Process S) ℕ
  open_sqlite dsn = do
    db ← wrapping "sqlite: open" (open_sql (codes "sqlite") dsn)
    or_close db (wrapping "sqlite: migrate" (up_sqlite db))
    pure db

  -- runMigrations
  unfoldable pub run_migrations : (dsn : Bytes) → Action (Process S) (Unit {0})
  run_migrations dsn = do
    db ← wrapping "postgres: open migration conn" (open_sql (codes "pgx") dsn)
    close_after db (wrapping "postgres: migrate" (up_postgres db))

  -- postgres.Open; the pool of the store is the driver's.
  unfoldable pub open_postgres : (dsn : Bytes) → Action (Process S) (Unit {0})
  open_postgres dsn = do run_migrations dsn; wrapping "postgres: open" (outside (new_pool dsn))
