-- ===== src/Daemon/Tests.antt =====
-- Requests to the daemon.
use telecollection.Prelude.{ℕ, ◌≡◌, refl, codes, false, none, [], ok, err, new, length}
use telecollection.Http.Response.{Response, fresh, unauthorized}
use telecollection.Http.Requests.{DriveDecoders}
use telecollection.Http.Router.{get, Request, Codecs}
use telecollection.Daemon.{Exit, fatal, handler, main}
use telecollection.Daemon.Closed.{handler-closed}

abbrev bodies : DriveDecoders (Unit {0})
bodies = record {
  name = λ s. none;
  folder = λ s. none;
  folder_new_name = λ s. none;
  file_ref = λ s. none;
  file_ref_name = λ s. none;
  file_ref_new_name = λ s. none;
  move = λ s. none;
  form = λ limit memory q s. none;
  parse_int = λ s. none;
  atoi = λ s. none;
  itoa = λ n. [];
}

abbrev std : Codecs (Unit {0})
std = record {
  decode_hex = λ s. s;
  sha256 = λ s. s;
  auth_bodies = record { phone = λ s. none; code = λ s. none; password = λ s. none };
  drive_bodies = bodies;
  is_password_needed = λ e. false;
  accepts = λ p w. (length p, none);
}

abbrev not_found : Request → Response → Response
not_found r w = w

abbrev ping : Request
ping = record {
  method = get;
  path = codes "/api/v1/ping";
  query = λ s. [];
  body = [];
  origin = codes "http://localhost";
  api_key = codes "key";
}

handler-closed_example :
    handler {S = ℕ} std not_found ping (fresh, 3) ≡ (ok tt, (unauthorized fresh, 3))
unfolding telecollection.Daemon.Closed.closed telecollection.Daemon.Closed.refusal
    telecollection.Http.Router.below telecollection.Http.same_bytes
handler-closed_example = handler-closed std not_found ping fresh 3 refl

-- A listener that cannot bind its address ends the process.
main_in_use :
    main {S = ℕ} std not_found
      (λ addr handler n. (err (new "listen tcp: address already in use"), n))
      3
    ≡ (ok (fatal (new "listen tcp: address already in use")), 3)
unfolding main
main_in_use = refl
