-- ===== src/Store/Opening/Handles.antt =====
-- The handles that Open leaves open, and the migrations behind a store that it returns.
use mathlib.Core.Path.{subst}
use telecollection.Prelude.{
  ℕ, ◌≡◌, sym, String, refl, ◌∙◌, ap, ==_iff, arith, Bytes, codes, List, ◌∷◌, Result, ok, err,
  panicked, ok-injective, Error, Action, wrapping, ◌>>◌, Yields, Yields-bind, Yields-wrapping,
  Yields-pure,
}
use telecollection.Store.Opening.{
  Drivers, Process, outside, or_close, close_after, close, opened, closed_on_error, open_sql, up,
  up_sqlite, up_postgres, open_sqlite, run_migrations, open_postgres,
}

-- All pending migrations of a directory of a file system, which were applied to a handle.
pub record Applied : Type 0 where
  pub handle : ℕ
  pub fs : Bytes
  pub dialect : Bytes
  pub dir : Bytes

abbrev pub sqlite_migrations : ℕ → Applied
sqlite_migrations h = record {
  handle = h;
  fs = codes "sqliteFS";
  dialect = codes "sqlite3";
  dir = codes "sqlite";
}

abbrev pub postgres_migrations : ℕ → Applied
postgres_migrations h = record {
  handle = h;
  fs = codes "postgresFS";
  dialect = codes "postgres";
  dir = codes "postgres";
}

-- What goose keeps for the process, and what it has applied.
pub record Goose : Type 0 where
  pub fs : Bytes
  pub dialect : Bytes
  pub applied : List Applied

-- The documented behaviour of goose: SetBaseFS and SetDialect set its globals, and an Up that returns nil
-- has applied the migrations of the directory, by the globals, to the handle that it is given. Opening a
-- handle or a pool applies none.
pub record Documented {S : Type 0} (drivers : Drivers S) (goose : S → Goose) : Type 0 where
  pub set_base_fs :
      (fs : Bytes) (s : S) → goose (drivers.set_base_fs fs s) ≡ record (goose s) { fs = fs }
  pub set_dialect :
      (dialect : Bytes) (s : S) {s' : S}
      → drivers.set_dialect dialect s ≡ (ok tt, s')
      → goose s' ≡ record (goose s) { dialect = dialect }
  pub goose_up :
      (h : ℕ) (dir : Bytes) (s : S) {s' : S}
      → drivers.goose_up h dir s ≡ (ok tt, s')
      → (goose s').applied
        ≡ record { handle = h; fs = (goose s).fs; dialect = (goose s).dialect; dir = dir }
          ∷ (goose s).applied
  pub sql_open :
      (driver dsn : Bytes) (s : S)
      → (goose (drivers.sql_open driver dsn s).1).applied ≡ (goose s).applied
  pub new_pool :
      (dsn : Bytes) (s : S) → (goose (drivers.new_pool dsn s).1).applied ≡ (goose s).applied

module _ {S : Type 0} where
  -- What holds of a value and of the world that it is returned in.
  abbrev Gives : {A : Type 0} → Action (Process S) A → Process S → (A → S → Type 0) → Type 0
  Gives m p Q = Yields m p (λ a q. Q a q.world)

  Gives-outside :
      {A : Type 0} (m : Action S A) (p : Process S) (Q : A → S → Type 0)
      → Yields m p.world Q
      → Gives (outside m) p Q
  Gives-outside m p Q y = record { at = λ h. y.at (λ i. ((h i).0, (h i).1.world)) }

  closed_world :
      {A : Type 0} (h : ℕ) (r : Result A) (p : Process S) → (closed_on_error h r p).world ≡ p.world
  unfolding close
  closed_world h (ok a) p = refl
  closed_world h (err e) p = refl
  closed_world h panicked p = refl

  Gives-or_close :
      {A : Type 0} (h : ℕ) (m : Action (Process S) A) (p : Process S) (Q : A → S → Type 0)
      → Gives m p Q
      → Gives (or_close h m) p Q
  Gives-or_close h m p Q y = record {
    at = λ {a = a} e.
        subst (λ x. Q a x) (sym (closed_world h (m p).0 (m p).1) ∙ ap (λ x. x.1.world) e)
          (y.at (λ i. ((e i).0, (m p).1)));
  }

  Gives-close_after :
      {A : Type 0} (h : ℕ) (m : Action (Process S) A) (p : Process S) (Q : A → S → Type 0)
      → Gives m p Q
      → Gives (close_after h m) p Q
  unfolding close
  Gives-close_after h m p Q y = record {
    at = λ {a = a} e. subst (λ x. Q a x) (ap (λ x. x.1.world) e) (y.at (λ i. ((e i).0, (m p).1)));
  }

module _ {S : Type 0} (drivers : Drivers S) (goose : S → Goose)
    (documented : Documented drivers goose) where
  open drivers use {sql_open, set_base_fs, set_dialect, goose_up, new_pool}

  abbrev Migrated : ℕ → (fs dialect dir : Bytes) → S → S → Type 0
  Migrated h fs dialect dir s s' =
      (goose s').applied
      ≡ record { handle = h; fs = fs; dialect = dialect; dir = dir } ∷ (goose s).applied

  Migrated-from :
      {h k : ℕ} (fs dialect dir : Bytes) {s t s' : S}
      → h ≡ k
      → (goose t).applied ≡ (goose s).applied
      → Migrated h fs dialect dir t s'
      → Migrated k fs dialect dir s s'
  Migrated-from fs dialect dir e kept m =
      m ∙ λ i. record { handle = e i; fs = fs; dialect = dialect; dir = dir } ∷ kept i

  opening :
      (msg : String) (driver dsn : Bytes) (p : Process S)
      → Gives
          (wrapping msg (open_sql drivers driver dsn))
          p
          (λ h s. (h ≡ p.next_handle) × ((goose s).applied ≡ (goose p.world).applied))
  unfolding open_sql
  opening msg driver dsn p =
      Yields-wrapping msg (open_sql drivers driver dsn)
        (record { at = λ e. opened_at (sql_open driver dsn p.world).0 e })
    where
      opened_at :
          (r : Result (Unit {0})) {h : ℕ} {q : Process S}
          → opened r (sql_open driver dsn p.world).1 p ≡ (ok h, q)
          → (h ≡ p.next_handle) × ((goose q.world).applied ≡ (goose p.world).applied)
      opened_at (ok a) e = (
        sym (ok-injective (ap (λ x. x.0) e)),
        ap (λ x. (goose x.1.world).applied) (sym e) ∙ documented.sql_open driver dsn p.world,
      )
      opened_at (err x) e = cc
      opened_at panicked e = cc

  migrating :
      (h : ℕ) (fs dir dialect : Bytes) (p : Process S)
      → Gives (up drivers h fs dir dialect) p (λ a s. Migrated h fs dialect dir p.world s)
  unfolding up
  migrating h fs dir dialect p =
      let s = set_base_fs fs p.world in
      let based = documented.set_base_fs fs p.world in
      let rest : Gives
          (wrapping "migrate: set dialect" (outside (set_dialect dialect))
            >> wrapping "migrate: up" (outside (goose_up h dir)))
          (record p { world = s }) (λ a s'. Migrated h fs dialect dir p.world s') =
        Yields-bind _ _
          (Yields-wrapping "migrate: set dialect" (outside (set_dialect dialect)) (
            Gives-outside (set_dialect dialect) (record p { world = s })
              (λ a s'. goose s' ≡ record (goose s) { dialect = dialect })
              (record { at = λ e. documented.set_dialect dialect s e })))
          (λ a q set. Yields-wrapping "migrate: up" (outside (goose_up h dir)) (
            Gives-outside (goose_up h dir) q (λ b s'. Migrated h fs dialect dir p.world s')
              (record { at = λ e. documented.goose_up h dir q.world e ∙ rw (set, based) refl }))) in
      record { at = λ e. rest.at e }

  sqlite-Migrated :
      (dsn : Bytes) (p : Process S)
      → Gives
          (open_sqlite drivers dsn)
          p
          (λ h s. Migrated h (codes "sqliteFS") (codes "sqlite3") (codes "sqlite") p.world s)
  unfolding open_sqlite up_sqlite
  sqlite-Migrated dsn p =
      Yields-bind _ _ (opening "sqlite: open" (codes "sqlite") dsn p) (λ db q (same, kept).
        Yields-bind _ _
          (Gives-or_close db _ q
            (λ a s. Migrated db (codes "sqliteFS") (codes "sqlite3") (codes "sqlite") q.world s)
            (Yields-wrapping "sqlite: migrate" _
              (migrating db (codes "sqliteFS") (codes "sqlite") (codes "sqlite3") q)))
          (λ a q' migrated. Yields-pure db (Migrated-from _ _ _ refl kept migrated)))

  postgres-Migrated :
      (dsn : Bytes) (p : Process S)
      → Gives (open_postgres drivers dsn) p (λ a s.
        Migrated p.next_handle (codes "postgresFS") (codes "postgres") (codes "postgres") p.world s)
  unfolding open_postgres run_migrations up_postgres
  postgres-Migrated dsn p =
      Yields-bind _ _
        (Yields-bind _ _ (opening "postgres: open migration conn" (codes "pgx") dsn p)
          (λ db q (same, kept).
            Gives-close_after db _ q
              (λ a s.
                Migrated p.next_handle (codes "postgresFS") (codes "postgres") (codes "postgres")
                  p.world s)
              (Yields-wrapping "postgres: migrate" (up_postgres drivers db) (record {
                at = λ e. Migrated-from _ _ _ same kept (
                    (migrating db (codes "postgresFS") (codes "postgres") (codes "postgres") q).at
                      e);
              }))))
        (λ a q migrated. Yields-wrapping "postgres: open" (outside (new_pool dsn)) (
          Gives-outside (new_pool dsn) q
            (λ b s.
              Migrated p.next_handle (codes "postgresFS") (codes "postgres") (codes "postgres")
                p.world s)
            (record {
              at = λ e.
                  ap (λ x. (goose x.1).applied) (sym e)
                  ∙ documented.new_pool dsn q.world
                  ∙ migrated;
            })))

module _ {S : Type 0} (drivers : Drivers S) (dsn : Bytes) (p : Process S) where
  sqlite-ok :
      (h : ℕ)
      → (open_sqlite drivers dsn p).0 ≡ ok h
      → (open_sqlite drivers dsn p).1.handles ≡ h ∷ p.handles
  unfolding open_sqlite open_sql up_sqlite up
  sqlite-ok h q = ground arith

  sqlite-err :
      (e : Error)
      → (open_sqlite drivers dsn p).0 ≡ err e
      → (open_sqlite drivers dsn p).1.handles ≡ p.handles
  unfolding open_sqlite open_sql up_sqlite up close
  sqlite-err e q = ground (arith, ==_iff p.next_handle p.next_handle)

  postgres-handles : (open_postgres drivers dsn p).1.handles ≡ p.handles
  unfolding open_postgres run_migrations open_sql up_postgres up close
  postgres-handles = ground (arith, ==_iff p.next_handle p.next_handle)

-- If the drivers behave as documented: the Open of SQLite that returns a store has one handle open more,
-- that of the store, and the migrations of the directory "sqlite" of sqliteFS were applied to that handle
-- under the dialect "sqlite3", and nothing else; one that returns an error leaves no handle open. The
-- Open of Postgres leaves no handle open in any case, a panic included; if it returns a store, the
-- migrations of the directory "postgres" of postgresFS were applied under the dialect "postgres" to the
-- handle that it opened for them, and nothing else.
pub open-handles :
    {S : Type 0} (drivers : Drivers S) (goose : S → Goose) (dsn : Bytes) (p : Process S)
    → Documented drivers goose
    → ((h : ℕ)
        → (open_sqlite drivers dsn p).0 ≡ ok h
        → ((open_sqlite drivers dsn p).1.handles ≡ h ∷ p.handles)
          × ((goose (open_sqlite drivers dsn p).1.world).applied
              ≡ sqlite_migrations h ∷ (goose p.world).applied))
      × ((e : Error)
          → (open_sqlite drivers dsn p).0 ≡ err e
          → (open_sqlite drivers dsn p).1.handles ≡ p.handles)
      × ((open_postgres drivers dsn p).1.handles ≡ p.handles)
      × ((open_postgres drivers dsn p).0 ≡ ok tt
          → (goose (open_postgres drivers dsn p).1.world).applied
            ≡ postgres_migrations p.next_handle ∷ (goose p.world).applied)
open-handles drivers goose dsn p documented = (
  λ h q. (
    sqlite-ok drivers dsn p h q,
    (sqlite-Migrated drivers goose documented dsn p).at (λ i. (q i, (open_sqlite drivers dsn p).1)),
  ),
  sqlite-err drivers dsn p,
  postgres-handles drivers dsn p,
  λ q.
      (postgres-Migrated drivers goose documented dsn p).at
        (λ i. (q i, (open_postgres drivers dsn p).1)),
)
