-- ===== src/Http/Router.antt =====
-- internal/httpapi/router.go and health.go: the routes, the check of the origin, and the middleware in
-- front of them. `fallback` is chi's answer to what no route takes.
pub mod Refusal
pub mod Origins
use telecollection.Prelude.{
  ℕ, ◌==◌, Bytes, codes, is_empty, Bool, true, false, not, ◌&&◌, ◌||◌, Option, none, some, List, [],
  ◌∷◌, ◌++◌, find, Error, ok, if◌then◌else◌,
}
use telecollection.Http.{same_bytes, require_api_key, Verdict, refused, served}
use telecollection.Http.Response.{
  Response, write_header, write_chunk, write_json, raw, health_of, unauthorized,
}
use telecollection.Http.AuthRoutes.{
  Handler, respond, AuthService, AuthDecoders, post_start, post_code, post_password, post_qr,
  get_status, post_logout,
}
use telecollection.Http.Requests.{DriveDecoders, Query}
use telecollection.Http.DriveRoutes.{
  DriveService, get_folders, post_folders, patch_folders, delete_folders, get_files, post_files,
  get_download, patch_files, post_move, delete_files,
}

pub data Method : Type 0 where
  get post patch delete options other_method : Method

abbrev pub method_code : Method → ℕ
method_code get = 0
method_code post = 1
method_code patch = 2
method_code delete = 3
method_code options = 4
method_code other_method = 5

-- What the package reads of a request; a missing header is empty.
pub record Request : Type 0 where
  pub method : Method
  pub path : Bytes
  pub query : Query
  pub body : Bytes
  pub origin : Bytes
  pub api_key : Bytes

-- A method and a path below the mount point, and its handler.
abbrev pub Route : Type 0 → Type 0
Route S = Method × (Bytes × (Request → Handler S))

-- Deps, with what the handlers take from the standard library.
pub record Deps (R S : Type 0) : Type 0 where
  pub api_key_hash_hex : Bytes
  pub allowed_origins : List Bytes
  pub auth : Option (AuthService S)
  pub drive : Option (DriveService R S)

-- The standard library: hex and SHA-256, JSON and numbers, errors.Is, and how much a response takes.
pub record Codecs (R : Type 0) : Type 0 where
  pub decode_hex : Bytes → Bytes
  pub sha256 : Bytes → Bytes
  pub auth_bodies : AuthDecoders
  pub drive_bodies : DriveDecoders R
  pub is_password_needed : Error → Bool
  pub accepts : Bytes → Response → ℕ × Option Error

unfoldable pub has_bytes : Bytes → List Bytes → Bool
unfolding same_bytes
has_bytes s [] = false
has_bytes s (t ∷ ts) = same_bytes s t || has_bytes s ts

-- The rest of a path below a prefix.
unfoldable pub below : (prefix path : Bytes) → Option Bytes
below [] path = some path
below (c ∷ p) [] = none
below (c ∷ p) (d ∷ path) = let rest = below p path in if c == d then rest else none

-- The headers that cors sets for an origin it knows.
unfoldable pub allow_origin : List Bytes → Request → Response → Response
unfolding has_bytes
allow_origin allowed r w =
    if not (is_empty r.origin) && has_bytes r.origin allowed
    then record w {
      headers = record w.headers {
        allow_origin = some r.origin;
        vary = w.headers.vary ++ codes "Origin" ∷ [];
      };
    }
    else w

abbrev pub preflight : Response → Response
unfolding write_header
preflight w = write_header 204 (record w {
  headers = record w.headers {
    allow_methods = some (codes "GET, POST, PATCH, DELETE, OPTIONS");
    allow_headers = some (codes "Content-Type, X-API-Key");
  };
})

-- cors
unfoldable pub cors : {S : Type 0} → List Bytes → (Request → Handler S) → Request → Handler S
unfolding allow_origin preflight
cors allowed next r (w, s) =
    if method_code r.method == method_code options
    then respond preflight (allow_origin allowed r w, s)
    else next r (allow_origin allowed r w, s)

-- Health
unfoldable pub health : (version : Bytes) → Response → Response
unfolding write_json
health version = write_json 200 (health_of (codes "ok") version)

abbrev pub pong : Bytes
pong = codes "{\"pong\":true}"

abbrev pub hello : Bytes
hello = codes "event: hello" ++ 10 ∷ codes "data: {}" ++ 10 ∷ 10 ∷ []

abbrev pub ping : Response → Response
unfolding write_chunk
ping w =
    write_chunk (raw pong)
      (record w { headers = record w.headers { content_type = some (codes "application/json") } })

-- sse
unfoldable pub sse : Response → Response
unfolding write_chunk
sse w = write_chunk (raw hello) (record w {
  headers = record w.headers {
    content_type = some (codes "text/event-stream");
    cache_control = some (codes "no-cache");
    connection = some (codes "keep-alive");
  };
})

module _ {R S : Type 0} (std : Codecs R) where
  open std use {auth_bodies, drive_bodies, is_password_needed, accepts}

  -- RegisterAuthRoutes
  unfoldable pub auth_routes : Option (AuthService S) → List (Route S)
  unfolding post_start post_code post_password post_qr get_status post_logout
  auth_routes none = []
  auth_routes (some svc) =
      (post, (codes "/auth/start", λ r. post_start svc auth_bodies is_password_needed r.body))
      ∷ (post, (codes "/auth/code", λ r. post_code svc auth_bodies is_password_needed r.body))
      ∷ (
        post,
        (codes "/auth/password", λ r. post_password svc auth_bodies is_password_needed r.body),
      )
      ∷ (post, (codes "/auth/qr", λ r. post_qr svc auth_bodies is_password_needed))
      ∷ (get, (codes "/auth/status", λ r. get_status svc auth_bodies is_password_needed))
      ∷ (post, (codes "/auth/logout", λ r. post_logout svc auth_bodies is_password_needed))
      ∷ []

  -- RegisterDriveRoutes
  unfoldable pub drive_routes : Option (DriveService R S) → List (Route S)
  unfolding get_folders post_folders patch_folders delete_folders get_files post_files get_download
      patch_files post_move delete_files
  drive_routes none = []
  drive_routes (some svc) =
      (get, (codes "/folders", λ r. get_folders svc drive_bodies))
      ∷ (post, (codes "/folders", λ r. post_folders svc drive_bodies r.body))
      ∷ (patch, (codes "/folders", λ r. patch_folders svc drive_bodies r.body))
      ∷ (delete, (codes "/folders", λ r. delete_folders svc drive_bodies r.body))
      ∷ (get, (codes "/files", λ r. get_files svc drive_bodies r.query r.body))
      ∷ (post, (codes "/files", λ r. post_files svc drive_bodies r.query r.body))
      ∷ (get, (codes "/files/download", λ r. get_download svc drive_bodies accepts r.query r.body))
      ∷ (patch, (codes "/files", λ r. patch_files svc drive_bodies r.body))
      ∷ (post, (codes "/files/move", λ r. post_move svc drive_bodies r.body))
      ∷ (delete, (codes "/files", λ r. delete_files svc drive_bodies r.body))
      ∷ []

  abbrev pub base_routes : List (Route S)
  unfolding sse
  base_routes =
      (get, (codes "/ping", λ r. respond ping)) ∷ (get, (codes "/events", λ r. respond sse)) ∷ []

  abbrev pub takes : Request → Bytes → Route S → Bool
  unfolding same_bytes
  takes r path (m, (p, h)) = method_code r.method == method_code m && same_bytes path p

  module _ (deps : Deps R S) (version : Bytes) (fallback : Request → Response → Response) where
    abbrev pub dispatch : Option (Route S) → Request → Handler S
    dispatch none r = respond (fallback r)
    dispatch (some (m, (p, h))) r = h r

    unfoldable pub route_of : Request → Bytes → Option (Route S)
    unfolding find takes base_routes auth_routes drive_routes
    route_of r path =
        find (takes r path) (base_routes ++ auth_routes deps.auth ++ drive_routes deps.drive)

    unfoldable pub checked : Verdict → Bytes → Request → Handler S
    unfolding unauthorized route_of
    checked refused path r = respond unauthorized
    checked served path r = dispatch (route_of r path) r

    -- What is mounted at /api/v1.
    unfoldable pub serve_api : Bytes → Request → Handler S
    unfolding require_api_key checked
    serve_api path r =
        checked (require_api_key std.decode_hex std.sha256 deps.api_key_hash_hex r.api_key) path r

    abbrev pub is_subpath : Bytes → Bool
    is_subpath [] = true
    is_subpath (c ∷ p) = c == b'/'

    unfoldable pub mounted : Option Bytes → Request → Handler S
    unfolding serve_api
    mounted none r = respond (fallback r)
    mounted (some path) r = if is_subpath path then serve_api path r else respond (fallback r)

    unfoldable pub root : Request → Handler S
    unfolding mounted health below same_bytes
    root r =
        if method_code r.method == method_code get && same_bytes r.path (codes "/health")
        then respond (health version)
        else mounted (below (codes "/api/v1") r.path) r

    -- The handler that NewRouter returns.
    unfoldable pub serve : Request → Handler S
    unfolding cors root
    serve = cors deps.allowed_origins root
