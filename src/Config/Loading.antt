-- ===== src/Config/Loading.antt =====
-- Which environments Load accepts.
use telecollection.Prelude.{◌≡◌, ◌≢◌, ◌⊎◌, Bytes, codes, []}
use telecollection.Config.{Mode, Config, mode_of, getenv}

abbrev Var : Type 0
Var = Bytes → Bytes

-- The mode that an environment asks for: TELECOL_MODE, or desktop mode where it is not set.
mode_asked : Var → Mode
mode_asked env = mode_of (getenv env (codes "TELECOL_MODE") (codes "desktop"))

-- What Load wants: TELECOL_MODE not set or "desktop" and a data directory, or "server" and a database
-- and a listen address.
abbrev pub Accepted : (Bytes → Bytes) → Type 0
Accepted env =
    (((env (codes "TELECOL_MODE") ≡ []) ⊎ (env (codes "TELECOL_MODE") ≡ codes "desktop"))
      × (env (codes "TELECOL_DATA_DIR") ≢ []))
    ⊎ ((env (codes "TELECOL_MODE") ≡ codes "server")
        × (env (codes "TELECOL_DATABASE_URL") ≢ [])
        × (env (codes "TELECOL_HTTP_ADDR") ≢ []))
