-- ===== src/Daemon.antt =====
-- cmd/telecollectiond/main.go and internal/version/version.go: what the daemon serves, and where.
-- Its logging is left out.
pub mod Closed
mod Tests
use telecollection.Prelude.{Bytes, codes, none, [], Result, ok, err, panicked, Error, Action}
use telecollection.Http.Response.{Response}
use telecollection.Http.AuthRoutes.{Handler}
use telecollection.Http.Router.{Request, Deps, Codecs, serve}

-- Version
abbrev pub version : Bytes
version = codes "0.0.0-dev"

-- String
abbrev pub version_string : Bytes
version_string = version

abbrev pub addr : Bytes
addr = codes "127.0.0.1:8550"

-- httpapi.Deps{}
abbrev pub no_deps : {R S : Type 0} → Deps R S
no_deps = record { api_key_hash_hex = []; allowed_origins = []; auth = none; drive = none }

-- How the process ends: main returns, or log.Fatal exits with an error.
pub data Exit : Type 0 where
  returned : Exit
  fatal : Error → Exit

abbrev exit_of : Result (Unit {0}) → Result Exit
exit_of (ok a) = ok returned
exit_of (err e) = ok (fatal e)
exit_of panicked = panicked

module _ {R S : Type 0} (std : Codecs R) (fallback : Request → Response → Response) where
  unfoldable pub handler : Request → Handler S
  handler = serve std no_deps version_string fallback

  -- main; `listen_and_serve` is http.ListenAndServe.
  unfoldable pub main :
      (listen_and_serve : Bytes → (Request → Handler S) → Action S (Unit {0})) → Action S Exit
  main listen_and_serve s = let (r, s') = listen_and_serve addr handler s in (exit_of r, s')
