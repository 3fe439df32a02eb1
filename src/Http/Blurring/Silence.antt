-- ===== src/Http/Blurring/Silence.antt =====
-- The server does not show the text of an error of its services.
use mathlib.Core.Option
use telecollection.Prelude.{
  ◌≡◌, refl, Bytes, ◌++◌, ◌∷◌, codes, Bool-cases, inl, inr, Option, none, some, find, Error, ◌==◌,
  ◌&&◌, [],
}
use telecollection.Http.{same_bytes, require_api_key, Verdict, refused, served}
use telecollection.Http.Response.{Response}
use telecollection.Http.AuthRoutes.{AuthService}
use telecollection.Http.DriveRoutes.{DriveService}
use telecollection.Http.Router.{
  get, post, patch, delete, method_code, Request, Deps, Codecs, below, base_routes, auth_routes,
  drive_routes, takes, dispatch, route_of, checked, serve_api, is_subpath, mounted, root, cors,
  serve,
}
use telecollection.Http.Blurring.{blurred_auth, blurred_drive}
use telecollection.Http.Blurring.AuthAnswers.{
  post_start-blurred, post_code-blurred, post_password-blurred, post_qr-blurred, get_status-blurred,
  post_logout-blurred,
}
use telecollection.Http.Blurring.DriveAnswers.{
  get_folders-blurred, post_folders-blurred, patch_folders-blurred, delete_folders-blurred,
  get_files-blurred, post_files-blurred, get_download-blurred, patch_files-blurred,
  post_move-blurred, delete_files-blurred,
}

-- The same services, with another text for each of their errors.
abbrev pub blurred : {R S : Type 0} → (Error → Error) → Deps R S → Deps R S
blurred blur deps = record deps {
  auth = Option.map (blurred_auth blur) deps.auth;
  drive = Option.map (blurred_drive blur) deps.drive;
}

module _ {R S : Type 0} (std : Codecs R) (blur : Error → Error)
    (known : (e : Error) → std.is_password_needed (blur e) ≡ std.is_password_needed e) where
  auth_routes-blurred :
      (svc : Option (AuthService S))
      → auth_routes std (Option.map (blurred_auth blur) svc) ≡ auth_routes std svc
  unfolding auth_routes
  auth_routes-blurred none = refl
  auth_routes-blurred (some svc) = λ i.
      let b = std.auth_bodies in
      let p = std.is_password_needed in
      (post, (codes "/auth/start", λ r. post_start-blurred blur svc b p known r.body i))
      ∷ (post, (codes "/auth/code", λ r. post_code-blurred blur svc b p known r.body i))
      ∷ (post, (codes "/auth/password", λ r. post_password-blurred blur svc b p known r.body i))
      ∷ (post, (codes "/auth/qr", λ r. post_qr-blurred blur svc b p known i))
      ∷ (get, (codes "/auth/status", λ r. get_status-blurred blur svc b p known i))
      ∷ (post, (codes "/auth/logout", λ r. post_logout-blurred blur svc b p known i))
      ∷ []

  drive_routes-blurred :
      (svc : Option (DriveService R S))
      → drive_routes std (Option.map (blurred_drive blur) svc) ≡ drive_routes std svc
  unfolding drive_routes
  drive_routes-blurred none = refl
  drive_routes-blurred (some svc) = λ i.
      let b = std.drive_bodies in
      (get, (codes "/folders", λ r. get_folders-blurred blur svc b i))
      ∷ (post, (codes "/folders", λ r. post_folders-blurred blur svc b r.body i))
      ∷ (patch, (codes "/folders", λ r. patch_folders-blurred blur svc b r.body i))
      ∷ (delete, (codes "/folders", λ r. delete_folders-blurred blur svc b r.body i))
      ∷ (get, (codes "/files", λ r. get_files-blurred blur svc b r.query r.body i))
      ∷ (post, (codes "/files", λ r. post_files-blurred blur svc b r.query r.body i))
      ∷ (
        get,
        (
          codes "/files/download",
          λ r. get_download-blurred blur svc b std.accepts r.query r.body i,
        ),
      )
      ∷ (patch, (codes "/files", λ r. patch_files-blurred blur svc b r.body i))
      ∷ (post, (codes "/files/move", λ r. post_move-blurred blur svc b r.body i))
      ∷ (delete, (codes "/files", λ r. delete_files-blurred blur svc b r.body i))
      ∷ []

  module _ (deps : Deps R S) (version : Bytes) (fallback : Request → Response → Response) where
    checked-blurred :
        (v : Verdict) (path : Bytes) (r : Request)
        → checked std (blurred blur deps) version fallback v path r
          ≡ checked std deps version fallback v path r
    unfolding checked route_of
    checked-blurred refused path r = refl
    checked-blurred served path r = λ i.
        dispatch std deps version fallback
          (find (takes std r path) (
            base_routes std
            ++ auth_routes-blurred deps.auth i
            ++ drive_routes-blurred deps.drive i))
          r

    mounted-blurred :
        (path : Option Bytes) (r : Request)
        → mounted std (blurred blur deps) version fallback path r
          ≡ mounted std deps version fallback path r
    unfolding mounted serve_api
    mounted-blurred none r = refl
    mounted-blurred (some path) r = elim (Bool-cases (is_subpath std deps version fallback path)) [
      | inl t ↦
          rw (t, mounted)
            (checked-blurred
              (require_api_key std.decode_hex std.sha256 deps.api_key_hash_hex r.api_key) path r)
      | inr t ↦ rw (t, mounted) refl
    ]

    root-blurred :
        (r : Request)
        → root std (blurred blur deps) version fallback r ≡ root std deps version fallback r
    unfolding root
    root-blurred r =
        elim (Bool-cases
          ((method_code r.method == method_code get) && same_bytes r.path (codes "/health"))) [
            | inl t ↦ rw (t, root) refl
            | inr t ↦ rw (t, root) (mounted-blurred (below (codes "/api/v1") r.path) r)
          ]

-- Whatever text each error of the services has: the answer to every request, with its status, its
-- headers and its body, and what becomes of the state are the same, if what tells ErrPasswordNeeded
-- from other errors is the same.
pub serve-blurred :
    {R S : Type 0} (std : Codecs R) (deps : Deps R S) (version : Bytes)
    (fallback : Request → Response → Response) (blur : Error → Error) (r : Request) (w : Response)
    (s : S)
    → ((e : Error) → std.is_password_needed (blur e) ≡ std.is_password_needed e)
    → serve std (blurred blur deps) version fallback r (w, s)
      ≡ serve std deps version fallback r (w, s)
unfolding serve
serve-blurred std deps version fallback blur r w s known = λ i.
    cors deps.allowed_origins (λ q. root-blurred std blur known deps version fallback q i) r (w, s)
