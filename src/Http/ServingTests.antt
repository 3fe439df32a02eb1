-- ===== src/Http/ServingTests.antt =====
-- Requests to a router with a small service, and the theorems there.
use telecollection.Prelude.{
  ℕ, suc, ◌↔◌, ◌≢◌, ℤ, pos, negsuc, ◌≡◌, refl, Bytes, codes, false, Option, none, some, [], ◌∷◌, ok,
  err, new, Error, Action, length,
}
use telecollection.Examples.{docs}
use telecollection.Transfer.{Write}
use telecollection.Http.{require_api_key, refused}
use telecollection.Http.Response.{
  Response, Headers, FolderJson, fresh, no_headers, raw, json, error_of,
}
use telecollection.Http.Requests.{DriveDecoders}
use telecollection.Http.DriveRoutes.{StreamWriter, DriveService, stream_download, download_name}
use telecollection.Http.DriveRoutes.Downloading.{UsesWriter, IsDownload, stream_download-IsDownload}
use telecollection.Http.Blurring.Silence.{blurred, serve-blurred}
use telecollection.Http.Router.{post, delete, Request, Deps, Codecs, serve}
use telecollection.Http.Router.Origins.{IsListed, serve-allow_origin}
use telecollection.Http.Router.Refusal.{unmounted, serve-refused}

-- A service that counts its calls; a download writes two bytes and then fails, unless the id is
-- negative.
abbrev refused_call : {A : Type 0} → Action ℕ A
refused_call n = (err (new "refused"), suc n)

abbrev done : Action ℕ (Unit {0})
done n = (ok tt, suc n)

abbrev two_bytes : ℤ → Write StreamWriter → Action (StreamWriter × ℕ) (Unit {0})
two_bytes (negsuc i) write (x, n) = (err (new "not found"), (x, suc n))
two_bytes (pos i) write (x, n) =
    let (q, x') = write (codes "ab") x in (err (new "connection lost"), (x', suc n))

abbrev service : DriveService (Unit {0}) ℕ
service = record {
  list_folders = λ n. (ok (docs ∷ []), suc n);
  create_folder = λ name. refused_call;
  rename_folder = λ folder name. done;
  delete_folder = λ folder. done;
  list_files = λ folder n. (ok [], suc n);
  upload_file = λ folder name r size mime. refused_call;
  download_file = λ folder id write. two_bytes id write;
  rename_file = λ folder id name. done;
  move_file = λ folder id dst. refused_call;
  delete_file = λ folder id. done;
}

abbrev docs_json : FolderJson
docs_json = record { channel_id = pos 77; access_hash = pos 3; title = codes "Docs [TC]" }

-- Every body that is not empty names the folder, and message 9.
abbrev unless_empty : {A : Type 0} → A → Bytes → Option A
unless_empty a [] = none
unless_empty a (c ∷ s) = some a

abbrev bodies : DriveDecoders (Unit {0})
bodies = record {
  name = unless_empty (codes "Docs");
  folder = unless_empty docs_json;
  folder_new_name = unless_empty (docs_json, codes "New");
  file_ref = unless_empty (docs_json, pos 9);
  file_ref_name = unless_empty (docs_json, (pos 9, codes "report"));
  file_ref_new_name = unless_empty (docs_json, (pos 9, codes "report"));
  move = unless_empty (docs_json, (pos 9, docs_json));
  form = λ limit memory q s. none;
  parse_int = λ s. none;
  atoi = λ s. none;
  itoa = λ n. codes "9";
}

abbrev std : Codecs (Unit {0})
std = record {
  decode_hex = λ s. s;
  sha256 = λ s. s;
  auth_bodies = record { phone = some; code = some; password = some };
  drive_bodies = bodies;
  is_password_needed = λ e. false;
  accepts = λ p w. (length p, none);
}

abbrev deps : Deps (Unit {0}) ℕ
deps = record {
  api_key_hash_hex = codes "key";
  allowed_origins = codes "http://localhost" ∷ [];
  auth = none;
  drive = some service;
}

abbrev delete_nine : (key : Bytes) → Request
delete_nine key = record {
  method = delete;
  path = codes "/api/v1/files";
  query = λ s. [];
  body = codes "{}";
  origin = codes "http://localhost";
  api_key = key;
}

abbrev known_origin : Headers
known_origin = record no_headers {
  allow_origin = some (codes "http://localhost");
  vary = codes "Origin" ∷ [];
}

abbrev not_found : Request → Response → Response
not_found r w = w

delete_nine_run :
    serve std deps (codes "1") not_found (delete_nine (codes "key")) (fresh, 0)
    ≡ (ok tt, (record { headers = known_origin; sent = some (204, known_origin); body = [] }, 1))
unfolding serve
delete_nine_run = refl

no_key : require_api_key (λ s. s) (λ s. s) (codes "key") (codes "kex") ≡ refused
unfolding require_api_key
no_key = refl

serve-refused_example :
    serve std deps (codes "1") not_found (delete_nine (codes "kex")) (fresh, 0) ≡ (
      ok tt,
      (
        (serve std
            (unmounted std deps (codes "1") not_found)
            (codes "1")
            not_found
            (delete_nine (codes "kex"))
            (fresh, 0)).1.0,
        0,
      ),
    )
serve-refused_example =
    serve-refused std deps (codes "1") not_found (delete_nine (codes "kex")) fresh 0 no_key

abbrev create_docs : Request
create_docs = record (delete_nine (codes "key")) { method = post; path = codes "/api/v1/folders" }

abbrev secret : Error → Error
secret e = new "the code is 12345"

-- The service fails, and says nothing of the code.
create_docs_run :
    (serve std (blurred secret deps) (codes "1") not_found create_docs (fresh, 0)).1.0.body
    ≡ json (error_of "DRIVE_ERROR" "drive request failed") ∷ []
unfolding serve
create_docs_run = refl

serve-blurred_example :
    serve std (blurred secret deps) (codes "1") not_found create_docs (fresh, 0)
    ≡ serve std deps (codes "1") not_found create_docs (fresh, 0)
serve-blurred_example =
    serve-blurred std deps (codes "1") not_found secret create_docs fresh 0 (λ e. refl)

-- A failure before the first byte.
envelope_run :
    (stream_download service bodies std.accepts docs
      (negsuc 0)
      (codes "report")
      (fresh, 0)).1.0.body
    ≡ json (error_of "DRIVE_ERROR" "drive request failed") ∷ []
unfolding stream_download
envelope_run = refl

-- A failure behind it.
cut_off_run :
    (stream_download service bodies std.accepts docs (pos 9) (codes "report") (fresh, 0)).1.0.body
    ≡ raw (codes "ab") ∷ []
unfolding stream_download
cut_off_run = refl

two_bytes-UsesWriter : UsesWriter service
two_bytes-UsesWriter P write folder (pos i) x s kept h = kept (codes "ab") x h
two_bytes-UsesWriter P write folder (negsuc i) x s kept h = h

stream_download-IsDownload_example :
    IsDownload
      (download_name service bodies (pos 9) (codes "report"))
      (stream_download service bodies std.accepts docs (pos 9) (codes "report") (fresh, 0)).1.0
stream_download-IsDownload_example =
    stream_download-IsDownload service bodies std.accepts docs (pos 9) (codes "report") fresh 0
      two_bytes-UsesWriter refl refl

serve-allow_origin_example : (some (codes "http://localhost") ≡ some (codes "http://localhost")) ↔ (
    (codes "http://localhost" ≡ codes "http://localhost")
    × (codes "http://localhost" ≢ [])
    × IsListed (codes "http://localhost") (codes "http://localhost" ∷ []))
unfolding serve
serve-allow_origin_example =
    serve-allow_origin std deps (codes "1") not_found (λ o r w h. h) two_bytes-UsesWriter
      (delete_nine (codes "key")) 0 204 known_origin (codes "http://localhost") refl
