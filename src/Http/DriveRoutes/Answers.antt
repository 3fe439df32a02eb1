-- ===== src/Http/DriveRoutes/Answers.antt =====
-- What the status of a response says about the call behind it.
use telecollection.Prelude.{
  ℕ, ◌≡◌, ◌≢◌, refl, ap, arith, String, Option, none, some, Result, ok, err, panicked, Bytes, codes,
  ℤ, then_do,
}
use telecollection.Http.Response.{
  json, error_of, FolderJson, Response, write_header, write_chunk, write_json, write_error,
  write_drive_error,
}
use telecollection.Http.AuthRoutes.{caught, respond, decode_body}
use telecollection.Http.Requests.{DriveDecoders, to_folder}
use telecollection.Http.DriveRoutes.{DriveService, answer, answered, no_content, delete_files}

abbrev pub status_of : Response → Option ℕ
status_of w = elim w.sent [ none ↦ none | some (status, h) ↦ some status ]

pub write_header-blank :
    (status : ℕ) (w : Response)
    → w.sent ≡ none
    → write_header status w ≡ record w { sent = some (status, w.headers) }
unfolding write_header
write_header-blank status w h = rw (h, write_header) refl

status-blank :
    (status : ℕ) (w : Response) → w.sent ≡ none → status_of (write_header status w) ≡ some status
status-blank status w h = ap status_of (write_header-blank status w h)

write_error-status :
    (status : ℕ) (code message : String) (w : Response)
    → w.sent ≡ none
    → status_of (write_error status code message w) ≡ some status
unfolding write_error write_json write_chunk write_header
write_error-status status code message w h =
    ap (λ w. status_of (write_chunk (json (error_of code message)) w))
      (write_header-blank status
        (record w { headers = record w.headers { content_type = some (codes "application/json") } })
        h)

clash : (a b : ℕ) (x y : Option ℕ) → a ≢ b → x ≡ some a → y ≡ some b → x ≢ y
clash a b x y ne hx hy e = ground arith

module _ {R S : Type 0} (svc : DriveService R S) (decode : DriveDecoders R) where
  answered-204 :
      (q : Result (Unit {0}) × S) (w w' : Response) (s' : S)
      → w.sent ≡ none
      → status_of w' ≡ some 204
      → then_do (caught q.0) (λ r. respond (answered no_content r)) (w, q.1) ≡ (ok tt, (w', s'))
      → q ≡ (ok tt, s')
  unfolding answered no_content write_drive_error
  answered-204 (ok a, s) w w' s' blank st eq = ap (λ z. (ok tt, z.1.1)) eq
  answered-204 (err e, s) w w' s' blank st eq =
      elim (clash 500 204 _ _ (omega arith)
        (write_error-status 500 "DRIVE_ERROR" "drive request failed" w blank) st
        (ap (λ z. status_of z.1.0) eq)) [ ]
  answered-204 (panicked, s) w w' s' blank st eq = cc

  bodied-204 :
      (o : Option (FolderJson × ℤ)) (w w' : Response) (s s' : S)
      → w.sent ≡ none
      → status_of w' ≡ some 204
      → decode_body o
          (λ (f, id). answer svc decode no_content (svc.delete_file (to_folder f) id))
          (w, s)
        ≡ (ok tt, (w', s'))
      → (f : FolderJson) × (id : ℤ) × (o ≡ some (f, id))
        × (svc.delete_file (to_folder f) id s ≡ (ok tt, s'))
  unfolding decode_body answer answered no_content
  bodied-204 none w w' s s' blank st eq =
      elim (clash 400 204 _ _ (omega arith)
        (write_error-status 400 "BAD_REQUEST" "invalid request body" w blank) st
        (ap (λ z. status_of z.1.0) eq)) [ ]
  bodied-204 (some (f, id)) w w' s s' blank st eq =
      (f, id, refl, answered-204 (svc.delete_file (to_folder f) id s) w w' s' blank st eq)

  -- DELETE /files answers 204 only if the body names a file and the service has deleted it.
  pub delete_files-deleted :
      (body : Bytes) (w w' : Response) (s s' : S)
      → w.sent ≡ none
      → status_of w' ≡ some 204
      → delete_files svc decode body (w, s) ≡ (ok tt, (w', s'))
      → (f : FolderJson) × (id : ℤ) × (decode.file_ref body ≡ some (f, id))
        × (svc.delete_file (to_folder f) id s ≡ (ok tt, s'))
  unfolding delete_files
  delete_files-deleted body w w' s s' blank st eq =
      bodied-204 (decode.file_ref body) w w' s s' blank st eq
