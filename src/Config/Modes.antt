-- ===== src/Config/Modes.antt =====
-- Which configurations are valid.
use telecollection.Prelude.{◌≡◌, ◌≢◌, ◌↔◌, ◌⊎◌, arith, none, []}
use telecollection.Config.{desktop, server, Config, validate}

-- A configuration is valid exactly if it has desktop mode and a data directory, or server mode, a
-- database and a listen address.
pub validate-none :
    (c : Config)
    → (validate c ≡ none) ↔ (
        ((c.mode ≡ desktop) × (c.data_dir ≢ []))
        ⊎ ((c.mode ≡ server) × (c.database_url ≢ []) × (c.http_addr ≢ [])))
unfolding validate
validate-none c = ground arith
