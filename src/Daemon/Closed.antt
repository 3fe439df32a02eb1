-- ===== src/Daemon/Closed.antt =====
-- What the daemon answers, which has no API key, no origins and no services configured.
use telecollection.Prelude.{
  ◌==◌, ◌≡◌, refl, Bytes, codes, is_empty, ◌&&◌, Option, none, some, [], ◌∷◌, ok, if◌then◌else◌,
  Bool-cases, inl, inr, false,
}
use telecollection.Http.{same_bytes, require_api_key}
use telecollection.Http.Response.{Response, unauthorized}
use telecollection.Http.Router.{
  get, options, method_code, Request, Codecs, has_bytes, below, allow_origin, preflight, cors,
  health, serve_api, mounted, root, serve,
}
use telecollection.Daemon.{version_string, no_deps, handler}

-- Nothing below /api/v1 is served.
unfoldable pub refusal : (Response → Response) → Option Bytes → Response → Response
refusal elsewhere none = elsewhere
refusal elsewhere (some []) = unauthorized
refusal elsewhere (some (c ∷ path)) = if c == b'/' then unauthorized else elsewhere

-- A preflight and GET /health are answered, a request below /api/v1 is refused, and any other goes to
-- the router's fallback.
unfoldable pub closed : (fallback : Request → Response → Response) → Request → Response → Response
unfolding refusal
closed fallback r =
    if method_code r.method == method_code options
    then preflight
    else if (method_code r.method == method_code get) && same_bytes r.path (codes "/health")
    then health version_string
    else refusal (fallback r) (below (codes "/api/v1") r.path)

allow_no_origin : (r : Request) (w : Response) → allow_origin [] r w ≡ w
unfolding allow_origin has_bytes
allow_no_origin r w = elim (Bool-cases (is_empty r.origin)) [
  | inl t ↦ rw t refl
  | inr t ↦ rw t refl
]

module _ {R S : Type 0} (std : Codecs R) (fallback : Request → Response → Response)
    (no_hash : std.decode_hex [] ≡ []) (r : Request) (w : Response) (s : S) where
  serve_api-unauthorized :
      (path : Bytes)
      → serve_api std no_deps version_string fallback path r (w, s) ≡ (ok tt, (unauthorized w, s))
  unfolding serve_api require_api_key
  serve_api-unauthorized path = rw no_hash refl

  mounted-refusal :
      (path : Option Bytes)
      → mounted std no_deps version_string fallback path r (w, s)
        ≡ (ok tt, (refusal (fallback r) path w, s))
  unfolding mounted refusal
  mounted-refusal none = refl
  mounted-refusal (some []) = serve_api-unauthorized []
  mounted-refusal (some (c ∷ path)) = elim (Bool-cases (c == b'/')) [
    | inl t ↦ rw t (serve_api-unauthorized (c ∷ path))
    | inr t ↦ rw t refl
  ]

  root-closed :
      (method_code r.method == method_code options) ≡ false
      → root std no_deps version_string fallback r (w, s) ≡ (ok tt, (closed fallback r w, s))
  unfolding root closed
  root-closed other =
      elim (Bool-cases
        ((method_code r.method == method_code get) && same_bytes r.path (codes "/health"))) [
          | inl t ↦ rw (other, t) refl
          | inr t ↦ rw (other, t) (mounted-refusal (below (codes "/api/v1") r.path))
        ]

-- If the text of a hash that is not configured decodes to no bytes: the handler of the daemon answers a
-- preflight and GET /health alone, without a header for the origin, refuses all that is below /api/v1
-- as unauthorized, whatever the key, leaves the rest to the router, and changes no state.
pub handler-closed :
    {R S : Type 0} (std : Codecs R) (fallback : Request → Response → Response) (r : Request)
    (w : Response) (s : S)
    → std.decode_hex [] ≡ []
    → handler std fallback r (w, s) ≡ (ok tt, (closed fallback r w, s))
unfolding handler serve cors
handler-closed std fallback r w s no_hash =
    elim (Bool-cases (method_code r.method == method_code options)) [
      | inl t ↦ unfold closed in rw (t, allow_no_origin r w) refl
      | inr t ↦ rw (t, allow_no_origin r w) (root-closed std fallback no_hash r w s t)
    ]
