-- ===== src/Http.antt =====
-- internal/httpapi: the check of the API key in auth.go, and the header of a download in
-- drive_routes.go.
pub mod Header
pub mod Response
pub mod AuthRoutes
pub mod Requests
pub mod DriveRoutes
pub mod Kept
pub mod Blurring
pub mod Router
pub mod Mounted
pub mod Key
mod Tests
mod ServingTests
mod MountedTests
use telecollection.Prelude.{
  ℕ, ◌==◌, Bytes, codes, is_empty, Bool, true, false, ◌&&◌, not, List, [], ◌∷◌, ◌++◌, if◌then◌else◌,
}

-- What the replacer of contentDisposition puts for a byte.
abbrev pub escape_byte : ℕ → Bytes
escape_byte c =
    if c == b'\\'
    then b'\\' ∷ b'\\' ∷ []
    else if c == b'"'
    then b'\\' ∷ b'"' ∷ []
    else if c == 13
    then []
    else if c == 10
    then []
    else c ∷ []

unfoldable pub escape : Bytes → Bytes
escape [] = []
escape (c ∷ s) = escape_byte c ++ escape s

-- contentDisposition
unfoldable pub content_disposition : Bytes → Bytes
unfolding escape
content_disposition name = codes "attachment; filename=" ++ b'"' ∷ escape name ++ b'"' ∷ []

-- subtle.ConstantTimeCompare
unfoldable pub same_bytes : Bytes → Bytes → Bool
same_bytes [] [] = true
same_bytes [] (_ ∷ _) = false
same_bytes (_ ∷ _) [] = false
same_bytes (a ∷ s) (b ∷ t) = (a == b) && same_bytes s t

-- What the handler of RequireAPIKey does with a request: it answers 401, or it serves.
pub data Verdict : Type 0 where
  refused served : Verdict

module _ (decode_hex sha256 : Bytes → Bytes) where
  -- RequireAPIKey, on the configured hash and the X-API-Key header, which is empty when it is missing.
  unfoldable pub require_api_key : (hash_hex key : Bytes) → Verdict
  unfolding same_bytes
  require_api_key hash_hex key =
      let want = decode_hex hash_hex in
      if is_empty want
      then refused
      else if is_empty key
      then refused
      else if not (same_bytes (sha256 key) want)
      then refused
      else served
