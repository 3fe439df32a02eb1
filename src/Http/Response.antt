-- ===== src/Http/Response.antt =====
-- net/http's ResponseWriter as far as internal/httpapi uses it, and the helpers that write JSON in
-- auth_routes.go and drive_routes.go.
use telecollection.Prelude.{
  ℕ, ℤ, pos, take, Bytes, codes, Option, none, some, List, [], ◌∷◌, ◌++◌, String, Error,
}
use telecollection.Store.{File}
use telecollection.Auth.{State}
use telecollection.Transfer.{Write}

-- The header fields that the package sets.
pub record Headers : Type 0 where
  pub content_type : Option Bytes
  pub content_disposition : Option Bytes
  pub allow_origin : Option Bytes
  pub allow_methods : Option Bytes
  pub allow_headers : Option Bytes
  pub cache_control : Option Bytes
  pub connection : Option Bytes
  pub vary : List Bytes

abbrev pub no_headers : Headers
no_headers = record {
  content_type = none;
  content_disposition = none;
  allow_origin = none;
  allow_methods = none;
  allow_headers = none;
  cache_control = none;
  connection = none;
  vary = [];
}

-- folderJSON
pub record FolderJson : Type 0 where
  pub channel_id : ℤ
  pub access_hash : ℤ
  pub title : Bytes

-- What is encoded to JSON.
pub data Payload : Type 0 where
  state_of : State → Payload
  qr_url : Bytes → Payload
  error_of : (code message : String) → Payload
  folder_list : List FolderJson → Payload
  one_folder : FolderJson → Payload
  file_list : List File → Payload
  one_file : File → Payload
  new_msg_id : ℤ → Payload
  health_of : (status version : Bytes) → Payload

pub data Chunk : Type 0 where
  raw : Bytes → Chunk
  json : Payload → Chunk

-- The response: the header fields that are staged, the status and the fields that were sent, and the
-- body.
pub record Response : Type 0 where
  pub headers : Headers
  pub sent : Option (ℕ × Headers)
  pub body : List Chunk

abbrev pub fresh : Response
fresh = record { headers = no_headers; sent = none; body = [] }

-- WriteHeader: only the first call counts.
unfoldable pub write_header : ℕ → Response → Response
write_header status w = elim w.sent [
  | none ↦ record w { sent = some (status, w.headers) }
  | some x ↦ w
]

-- Write, which sends 200 OK if no status was sent.
unfoldable pub write_chunk : Chunk → Response → Response
unfolding write_header
write_chunk c w = let w' = write_header 200 w in record w' { body = w'.body ++ c ∷ [] }

-- Write as an io.Writer: `accepts` is how many of the bytes go out, and the error.
unfoldable pub write_bytes : (accepts : Bytes → Response → ℕ × Option Error) → Write Response
unfolding write_chunk
write_bytes accepts p w = let (n, e) = accepts p w in ((pos n, e), write_chunk (raw (take n p)) w)

abbrev json_type : Bytes
json_type = codes "application/json"

-- writeJSON
unfoldable pub write_json : ℕ → Payload → Response → Response
unfolding write_header write_chunk
write_json status payload w = write_chunk (json payload) (
    write_header status (record w { headers = record w.headers { content_type = some json_type } }))

-- writeError
unfoldable pub write_error : ℕ → (code message : String) → Response → Response
unfolding write_json
write_error status code message = write_json status (error_of code message)

-- writeState
unfoldable pub write_state : State → Response → Response
unfolding write_json
write_state s = write_json 200 (state_of s)

-- writeServiceError
unfoldable pub write_service_error : Error → Response → Response
unfolding write_error
write_service_error e = write_error 500 "AUTH_ERROR" "authentication request failed"

-- writeDriveError
unfoldable pub write_drive_error : Error → Response → Response
unfolding write_error
write_drive_error e = write_error 500 "DRIVE_ERROR" "drive request failed"

abbrev pub unauthorized_body : Bytes
unauthorized_body =
    codes "{\"error\":{\"code\":\"UNAUTHORIZED\",\"message\":\"invalid or missing API key\"}}"

-- unauthorized
unfoldable pub unauthorized : Response → Response
unfolding write_header write_chunk
unauthorized w =
    write_chunk (raw unauthorized_body)
      (write_header 401 (record w { headers = record w.headers { content_type = some json_type } }))
