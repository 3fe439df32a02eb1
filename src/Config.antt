-- ===== src/Config.antt =====
-- internal/config/config.go: Load over an environment, and Validate.
pub mod Modes
pub mod Loading
mod Tests
use telecollection.Prelude.{
  Bytes, codes, is_empty, same_text, Option, none, some, if◌then◌else◌, Result, ok, err, Error, new,
  [],
}

-- Mode: one of the two that are supported, or another text.
pub data Mode : Type 0 where
  desktop server : Mode
  other : Bytes → Mode

-- Config
pub record Config : Type 0 where
  pub mode : Mode
  pub http_addr : Bytes
  pub data_dir : Bytes
  pub database_url : Bytes
  pub api_key_hash : Bytes

abbrev validate_mode : Mode → Config → Option Error
validate_mode desktop c =
    if is_empty c.data_dir then some (new "config: desktop mode requires DataDir") else none
validate_mode server c =
    if is_empty c.database_url
    then some (new "config: server mode requires DatabaseURL")
    else if is_empty c.http_addr
    then some (new "config: server mode requires HTTPAddr")
    else none
validate_mode (other m) c = some (new "config: unknown mode")

-- Validate
unfoldable pub validate : Config → Option Error
validate c = validate_mode c.mode c

-- Mode(s)
unfoldable pub mode_of : Bytes → Mode
unfolding same_text
mode_of s =
    if same_text s (codes "desktop")
    then desktop
    else if same_text s (codes "server")
    then server
    else other s

-- getenv; os.Getenv is empty where a variable is not set.
unfoldable pub getenv : (env : Bytes → Bytes) → (key default : Bytes) → Bytes
getenv env key default = if is_empty (env key) then default else env key

-- What Load reads.
unfoldable pub read_env : (Bytes → Bytes) → Config
read_env env = record {
  mode = mode_of (getenv env (codes "TELECOL_MODE") (codes "desktop"));
  http_addr = getenv env (codes "TELECOL_HTTP_ADDR") [];
  data_dir = getenv env (codes "TELECOL_DATA_DIR") [];
  database_url = getenv env (codes "TELECOL_DATABASE_URL") [];
  api_key_hash = getenv env (codes "TELECOL_API_KEY_HASH") [];
}

abbrev pub loaded : Option Error → Config → Result Config
loaded none c = ok c
loaded (some e) c = err e

-- Load
unfoldable pub load : (Bytes → Bytes) → Result Config
load env = loaded (validate (read_env env)) (read_env env)
