-- ===== src/Http/Router/Origins.antt =====
-- Which origin a response names.
use mathlib.Core.Path.{subst}
use telecollection.Prelude.{
  ℕ, ◌==◌, ◌≡◌, ◌≢◌, refl, sym, ◌∙◌, arith, if◌then◌else◌, ◌↔◌, ◌⊎◌, Bytes, codes, is_empty, Bool,
  true, not, ◌&&◌, Option, none, some, List, [], ◌∷◌, ◌++◌, All, All-append, find, Bool-cases, inl,
  inr,
}
use telecollection.Http.{same_bytes, require_api_key, refused, served, Verdict}
use telecollection.Http.Key.{same_bytes_iff}
use telecollection.Http.Response.{Response, Headers, fresh, raw, health_of, unauthorized}
use telecollection.Http.AuthRoutes.{AuthService}
use telecollection.Http.AuthRoutes.Keeping.{
  post_start-keeps, post_code-keeps, post_password-keeps, post_qr-keeps, get_status-keeps,
  post_logout-keeps,
}
use telecollection.Http.DriveRoutes.{DriveService}
use telecollection.Http.DriveRoutes.Downloading.{UsesWriter}
use telecollection.Http.DriveRoutes.Keeping.{
  get_folders-keeps, post_folders-keeps, patch_folders-keeps, delete_folders-keeps, get_files-keeps,
  post_files-keeps, get_download-keeps, patch_files-keeps, post_move-keeps, delete_files-keeps,
}
use telecollection.Http.Kept.{
  SentWith, Shows, Leaves, KeepsIt, KeepsIt-respond, write_header-Leaves, write_chunk-Leaves,
  write_json-Leaves, unauthorized-Leaves,
}
use telecollection.Http.Router.{
  options, get, method_code, Request, Route, Deps, Codecs, has_bytes, allow_origin, preflight, cors,
  health, ping, sse, below, base_routes, auth_routes, drive_routes, takes, dispatch, route_of,
  checked, pong, hello, serve_api, is_subpath, mounted, root, serve,
}

-- Whatever service is mounted for files reaches the response of a download by the writer only.
abbrev pub MountsWriters : {R S : Type 0} → Option (DriveService R S) → Type 1
MountsWriters none = Unit
MountsWriters (some svc) = UsesWriter svc

module _ {R S : Type 0} (std : Codecs R) (deps : Deps R S) (version : Bytes)
    (fallback : Request → Response → Response) (o : Option Bytes)
    (quiet : (r : Request) → Leaves o (fallback r)) (uses : MountsWriters deps.drive) where
  abbrev KeepsRoute : Route S → Type 0
  KeepsRoute (m, (p, h)) = (r : Request) → KeepsIt o (h r)

  found-keeps :
      (t : Route S → Bool) (routes : List (Route S)) (r : Request)
      → All KeepsRoute routes
      → KeepsIt o (dispatch std deps version fallback (find t routes) r)
  unfolding find
  found-keeps t [] r all = KeepsIt-respond o (fallback r) (quiet r)
  found-keeps t (x ∷ xs) r (k, all) = elim (Bool-cases (t x)) [
    | inl e ↦ rw (e, find) (k r)
    | inr e ↦ rw (e, find) (found-keeps t xs r all)
  ]

  base_routes-keep : All KeepsRoute (base_routes std)
  unfolding base_routes ping sse
  base_routes-keep = (
    λ r. KeepsIt-respond o ping (λ w h. write_chunk-Leaves o (raw pong) _ h),
    (λ r. KeepsIt-respond o sse (λ w h. write_chunk-Leaves o (raw hello) _ h), tt),
  )

  auth_routes-keep : (svc : Option (AuthService S)) → All KeepsRoute (auth_routes std svc)
  unfolding auth_routes
  auth_routes-keep none = tt
  auth_routes-keep (some svc) = (
    λ r. post_start-keeps o svc std.auth_bodies std.is_password_needed r.body,
    (
      λ r. post_code-keeps o svc std.auth_bodies std.is_password_needed r.body,
      (
        λ r. post_password-keeps o svc std.auth_bodies std.is_password_needed r.body,
        (
          λ r. post_qr-keeps o svc std.auth_bodies std.is_password_needed,
          (
            λ r. get_status-keeps o svc std.auth_bodies std.is_password_needed,
            (λ r. post_logout-keeps o svc std.auth_bodies std.is_password_needed, tt),
          ),
        ),
      ),
    ),
  )

  drive_routes-keep :
      (svc : Option (DriveService R S)) → MountsWriters svc → All KeepsRoute (drive_routes std svc)
  unfolding drive_routes
  drive_routes-keep none u = tt
  drive_routes-keep (some svc) u = (
    λ r. get_folders-keeps o svc std.drive_bodies,
    (
      λ r. post_folders-keeps o svc std.drive_bodies r.body,
      (
        λ r. patch_folders-keeps o svc std.drive_bodies r.body,
        (
          λ r. delete_folders-keeps o svc std.drive_bodies r.body,
          (
            λ r. get_files-keeps o svc std.drive_bodies r.query r.body,
            (
              λ r. post_files-keeps o svc std.drive_bodies r.query r.body,
              (
                λ r. get_download-keeps o svc std.drive_bodies std.accepts u r.query r.body,
                (
                  λ r. patch_files-keeps o svc std.drive_bodies r.body,
                  (
                    λ r. post_move-keeps o svc std.drive_bodies r.body,
                    (λ r. delete_files-keeps o svc std.drive_bodies r.body, tt),
                  ),
                ),
              ),
            ),
          ),
        ),
      ),
    ),
  )

  verdict-keeps :
      (v : Verdict) (path : Bytes) (r : Request)
      → KeepsIt o (checked std deps version fallback v path r)
  unfolding checked route_of
  verdict-keeps refused path r = KeepsIt-respond o unauthorized (unauthorized-Leaves o)
  verdict-keeps served path r =
      found-keeps (takes std r path)
        (base_routes std ++ auth_routes std deps.auth ++ drive_routes std deps.drive) r
        (All-append KeepsRoute (base_routes std) _ base_routes-keep (
          All-append KeepsRoute (auth_routes std deps.auth) (drive_routes std deps.drive)
            (auth_routes-keep deps.auth) (drive_routes-keep deps.drive uses)))

  serve_api-keeps :
      (path : Bytes) (r : Request) → KeepsIt o (serve_api std deps version fallback path r)
  unfolding serve_api
  serve_api-keeps path r =
      verdict-keeps (require_api_key std.decode_hex std.sha256 deps.api_key_hash_hex r.api_key) path
        r

  mounted-keeps :
      (path : Option Bytes) (r : Request) → KeepsIt o (mounted std deps version fallback path r)
  unfolding mounted
  mounted-keeps none r = KeepsIt-respond o (fallback r) (quiet r)
  mounted-keeps (some path) r = elim (Bool-cases (is_subpath std deps version fallback path)) [
    | inl t ↦ rw (t, mounted) (serve_api-keeps path r)
    | inr t ↦ rw (t, mounted) (KeepsIt-respond o (fallback r) (quiet r))
  ]

  root-keeps : (r : Request) → KeepsIt o (root std deps version fallback r)
  unfolding root health
  root-keeps r =
      elim (Bool-cases
        ((method_code r.method == method_code get) && same_bytes r.path (codes "/health"))) [
          | inl t ↦
              rw (t, root)
                (KeepsIt-respond o (health version)
                  (write_json-Leaves o 200 (health_of (codes "ok") version)))
          | inr t ↦ rw (t, root) (mounted-keeps (below (codes "/api/v1") r.path) r)
        ]

abbrev pub IsListed : Bytes → List Bytes → Type 0
IsListed s [] = ⊥
IsListed s (t ∷ ts) = (s ≡ t) ⊎ IsListed s ts

has_bytes_iff : (s : Bytes) (ts : List Bytes) → (has_bytes s ts ≡ true) ↔ IsListed s ts
unfolding has_bytes
has_bytes_iff s [] = ground arith
has_bytes_iff s (t ∷ ts) = ground (arith, has_bytes_iff s ts, same_bytes_iff s t)

-- What cors answers to an origin.
abbrev named : List Bytes → Bytes → Option Bytes
unfolding has_bytes
named allowed origin =
    if not (is_empty origin) && has_bytes origin allowed then some origin else none

named_iff :
    (allowed : List Bytes) (origin x : Bytes)
    → (named allowed origin ≡ some x) ↔ ((x ≡ origin) × (origin ≢ []) × IsListed origin allowed)
unfolding named
named_iff allowed [] x = ground (arith, has_bytes_iff [] allowed)
named_iff allowed (c ∷ origin) x = ground (arith, has_bytes_iff (c ∷ origin) allowed)

allow_origin-Shows :
    (allowed : List Bytes) (r : Request)
    → Shows (named allowed r.origin) (allow_origin allowed r fresh)
unfolding allow_origin named
allow_origin-Shows allowed r =
    elim (Bool-cases (not (is_empty r.origin) && has_bytes r.origin allowed)) [
      | inl t ↦ rw (t, allow_origin) (refl, tt)
      | inr t ↦ rw (t, allow_origin) (refl, tt)
    ]

module _ {R S : Type 0} (std : Codecs R) (deps : Deps R S) (version : Bytes)
    (fallback : Request → Response → Response)
    (quiet : (o : Option Bytes) (r : Request) → Leaves o (fallback r))
    (uses : MountsWriters deps.drive) where
  serve-Shows :
      (r : Request) (s : S)
      → Shows
          (named deps.allowed_origins r.origin)
          (serve std deps version fallback r (fresh, s)).1.0
  unfolding serve cors preflight
  serve-Shows r s =
      let o = named deps.allowed_origins r.origin in
      let shown = allow_origin-Shows deps.allowed_origins r in
      elim (Bool-cases (method_code r.method == method_code options)) [
        | inl t ↦ rw (t, serve, cors) (write_header-Leaves o 204 _ shown)
        | inr t ↦
            rw (t, serve, cors)
              ((root-keeps std deps version fallback o (quiet o) uses r).at _ shown)
      ]

  -- A response that is sent carries Access-Control-Allow-Origin exactly if the request has an origin that
  -- is in the list as a whole, and then names that origin, whichever route answers: if chi's own
  -- answers leave the header alone, and the service reaches the response of a download by the writer only.
  pub serve-allow_origin :
      (r : Request) (s : S) (status : ℕ) (h : Headers) (x : Bytes)
      → (serve std deps version fallback r (fresh, s)).1.0.sent ≡ some (status, h)
      → (h.allow_origin ≡ some x)
        ↔ ((x ≡ r.origin) × (r.origin ≢ []) × IsListed r.origin deps.allowed_origins)
  serve-allow_origin r s status h x sent =
      let o = named deps.allowed_origins r.origin in
      let shown = subst (SentWith o) sent (serve-Shows r s).1 in
      (
        λ e. (named_iff deps.allowed_origins r.origin x).0 (sym shown ∙ e),
        λ q. shown ∙ (named_iff deps.allowed_origins r.origin x).1 q,
      )
