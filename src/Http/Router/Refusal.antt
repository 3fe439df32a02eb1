-- ===== src/Http/Router/Refusal.antt =====
-- What a request without the API key reaches.
use telecollection.Prelude.{
  ◌==◌, ◌≡◌, refl, Bytes, codes, ◌&&◌, Option, none, some, ok, Bool-cases, inl, inr,
}
use telecollection.Http.{same_bytes, require_api_key, refused}
use telecollection.Http.Response.{Response}
use telecollection.Http.AuthRoutes.{Handler}
use telecollection.Http.Router.{
  options, get, method_code, Request, Deps, Codecs, below, allow_origin, cors, serve_api,
  is_subpath, mounted, root, serve,
}

module _ {R S : Type 0} (std : Codecs R) (deps : Deps R S) (version : Bytes)
    (fallback : Request → Response → Response) where
  abbrev pub unmounted : Deps R S
  unmounted = record deps { auth = none; drive = none }

  module _ (r : Request)
      (no_key : require_api_key std.decode_hex std.sha256 deps.api_key_hash_hex r.api_key
        ≡ refused) where
    abbrev Same : (Request → Handler S) → (Request → Handler S) → Type 0
    Same h k = (w : Response) (s : S) → h r (w, s) ≡ (ok tt, ((k r (w, s)).1.0, s))

    serve_api-same :
        (path : Bytes)
        → Same
            (serve_api std deps version fallback path)
            (serve_api std unmounted version fallback path)
    unfolding serve_api
    serve_api-same path w s = rw (no_key, serve_api) refl

    mounted-same :
        (p : Option Bytes)
        → Same (mounted std deps version fallback p) (mounted std unmounted version fallback p)
    unfolding mounted
    mounted-same none w s = refl
    mounted-same (some path) w s = elim (Bool-cases (is_subpath std deps version fallback path)) [
      | inl t ↦ rw (t, mounted) (serve_api-same path w s)
      | inr t ↦ rw (t, mounted) refl
    ]

    root-same : Same (root std deps version fallback) (root std unmounted version fallback)
    unfolding root
    root-same w s =
        elim (Bool-cases
          ((method_code r.method == method_code get) && same_bytes r.path (codes "/health"))) [
            | inl t ↦ rw (t, root) refl
            | inr t ↦ rw (t, root) (mounted-same (below (codes "/api/v1") r.path) w s)
          ]

    serve-same : Same (serve std deps version fallback) (serve std unmounted version fallback)
    unfolding serve cors
    serve-same w s = elim (Bool-cases (method_code r.method == method_code options)) [
      | inl t ↦ rw (t, serve, cors) refl
      | inr t ↦ rw (t, serve, cors) (root-same (allow_origin deps.allowed_origins r w) s)
    ]

-- A request whose key is refused, on whatever path and by whatever method, is answered as if no
-- service were mounted, and leaves the state of the services as it was.
pub serve-refused :
    {R S : Type 0} (std : Codecs R) (deps : Deps R S) (version : Bytes)
    (fallback : Request → Response → Response) (r : Request) (w : Response) (s : S)
    → require_api_key std.decode_hex std.sha256 deps.api_key_hash_hex r.api_key ≡ refused
    → serve std deps version fallback r (w, s) ≡ (
      ok tt,
      ((serve std (unmounted std deps version fallback) version fallback r (w, s)).1.0, s),
    )
serve-refused std deps version fallback r w s no_key =
    serve-same std deps version fallback r no_key w s
