-- ===== src/Http/Key.antt =====
-- Which requests get past the check of the API key.
use telecollection.Prelude.{==_iff, ◌≡◌, ◌≢◌, ◌↔◌, arith, Bytes, true, [], ◌∷◌}
use telecollection.Http.{same_bytes, require_api_key, served}

pub same_bytes_iff : (s t : Bytes) → (same_bytes s t ≡ true) ↔ (s ≡ t)
unfolding same_bytes
same_bytes_iff [] [] = ground arith
same_bytes_iff [] (b ∷ t) = ground arith
same_bytes_iff (a ∷ s) [] = ground arith
same_bytes_iff (a ∷ s) (b ∷ t) = ground (arith, same_bytes_iff s t, ==_iff a b)

-- A request is served exactly if a hash is configured, the request has a key, and the SHA-256 of the
-- key is the hash.
pub require_api_key-served :
    (decode_hex sha256 : Bytes → Bytes) (hash_hex key : Bytes)
    → (require_api_key decode_hex sha256 hash_hex key ≡ served)
      ↔ ((decode_hex hash_hex ≢ []) × (key ≢ []) × (sha256 key ≡ decode_hex hash_hex))
unfolding require_api_key
require_api_key-served decode_hex sha256 hash_hex key =
    ground (arith, same_bytes_iff (sha256 key) (decode_hex hash_hex))
