-- ===== src/Config/Tests.antt =====
-- Load in a concrete environment.
use telecollection.Prelude.{Bytes, codes, [], if◌then◌else◌, same_text}
use telecollection.Config.{Config, desktop}

-- The data directory alone is set.
abbrev desktop_env : Bytes → Bytes
desktop_env key = if same_text key (codes "TELECOL_DATA_DIR") then codes "data" else []

abbrev local_config : Config
local_config = record {
  mode = desktop;
  http_addr = [];
  data_dir = codes "data";
  database_url = [];
  api_key_hash = [];
}
