-- ===== src/Http/DriveRoutes/Downloading.antt =====
-- What goes out when a file is downloaded.
use mathlib.Core.Path.{subst}
use telecollection.Prelude.{
  ℕ, ℤ, take, ◌≡◌, refl, sym, ap, ◌∙◌, Bytes, codes, true, false, Option, none, some, [], ◌∷◌, ◌++◌,
  Result, ok, err, panicked, Error, All, All-append,
}
use telecollection.Dialogs.{Folder}
use telecollection.Transfer.{Write}
use telecollection.Http.{content_disposition}
use telecollection.Http.Response.{
  Headers, Chunk, raw, json, error_of, Response, write_header, write_chunk, write_bytes, write_json,
  write_error, write_drive_error,
}
use telecollection.Http.DriveRoutes.Answers.{write_header-blank}
use telecollection.Http.Requests.{DriveDecoders}
use telecollection.Http.DriveRoutes.{
  StreamWriter, DriveService, stream_write, staged, unstaged, downloaded, download_name,
  stream_download,
}

-- The service reaches the response by the writer only.
abbrev pub UsesWriter : {R S : Type 0} → DriveService R S → Type 1
UsesWriter {R} {S} svc =
    (P : StreamWriter → Type 0) (write : Write StreamWriter) (folder : Folder) (id : ℤ)
    (x : StreamWriter) (s : S)
    → ((p : Bytes) (y : StreamWriter) → P y → P (write p y).1)
    → P x
    → P (svc.download_file folder id write (x, s)).1.0

abbrev pub IsRaw : Chunk → Type 0
IsRaw (raw p) = Unit
IsRaw (json p) = ⊥

-- The three ways a response to a download of `name` can look: nothing was sent yet, bytes of the file
-- alone, as an attachment of that name, or the error envelope alone, as no attachment.
pub data IsDownload (name : Bytes) (w : Response) : Type 0 where
  unsent : w.sent ≡ none → w.body ≡ [] → IsDownload name w
  streamed :
      (h : Headers)
      → w.sent ≡ some (200, h)
      → h.content_disposition ≡ some (content_disposition name)
      → All IsRaw w.body
      → IsDownload name w
  refused :
      (h : Headers)
      → w.sent ≡ some (500, h)
      → h.content_disposition ≡ none
      → w.body ≡ json (error_of "DRIVE_ERROR" "drive request failed") ∷ []
      → IsDownload name w

-- The envelope in a response that is blank so far.
envelope :
    (e : Error) (w : Response)
    → w.headers.content_disposition ≡ none
    → w.sent ≡ none
    → w.body ≡ []
    → (h : Headers) × ((write_drive_error e w).sent ≡ some (500, h))
      × (h.content_disposition ≡ none)
      × ((write_drive_error e w).body ≡ json (error_of "DRIVE_ERROR" "drive request failed") ∷ [])
unfolding write_drive_error write_error write_json write_header write_chunk
envelope e w gone blank empty =
    let h = record w.headers { content_type = some (codes "application/json") } in
    let staged = record w { headers = h } in
    let sent =
      ap (write_chunk (json (error_of "DRIVE_ERROR" "drive request failed")))
        (write_header-blank 500 staged blank) in
    (
      h,
      ap (λ w. w.sent) sent,
      gone,
      ap (λ w. w.body) sent
          ∙ ap (λ b. b ++ json (error_of "DRIVE_ERROR" "drive request failed") ∷ []) empty,
    )

module _ {R S : Type 0} (svc : DriveService R S) (decode : DriveDecoders R)
    (accepts : Bytes → Response → ℕ × Option Error) (name : Bytes) (w0 : Response)
    (blank : w0.sent ≡ none) (empty : w0.body ≡ []) where
  abbrev attached : Response
  unfolding staged
  attached = staged svc decode name w0

  -- While the file is streamed.
  abbrev Going : StreamWriter → Type 0
  Going (wrote, w) = elim wrote [
    | false ↦ w ≡ attached
    | true ↦ (w.sent ≡ some (200, attached.headers)) × All IsRaw w.body
  ]

  write_chunk-again :
      (p : Bytes) (w : Response) → Going (true, w) → Going (true, write_chunk (raw p) w)
  unfolding write_chunk write_header attached staged content_disposition
  write_chunk-again p w (sent, all) =
      rw (sent, write_chunk, write_header) (sent, All-append IsRaw w.body (raw p ∷ []) all (tt, tt))

  write_chunk-first : (p : Bytes) → Going (true, write_chunk (raw p) attached)
  unfolding write_chunk write_header attached staged content_disposition
  write_chunk-first p = rw (blank, empty, write_chunk, write_header) (refl, (tt, tt))

  stream_write-Going : (p : Bytes) (x : StreamWriter) → Going x → Going (stream_write accepts p x).1
  unfolding stream_write write_bytes
  stream_write-Going p (false, w) h =
      subst (λ w'. Going (true, write_chunk (raw (take (accepts p w).0 p)) w')) (sym h)
        (write_chunk-first (take (accepts p w).0 p))
  stream_write-Going p (true, w) h = write_chunk-again (take (accepts p w).0 p) w h

  attached-IsDownload : IsDownload name attached
  unfolding attached staged content_disposition
  attached-IsDownload = unsent blank empty

  -- An error before the first byte.
  envelope-IsDownload :
      (e : Error) → IsDownload name (write_drive_error e (unstaged svc decode attached))
  unfolding attached staged content_disposition
  envelope-IsDownload e =
      let (h, sent, gone, body) = envelope e (unstaged svc decode attached) refl blank empty in
      refused h sent gone body

  streamed-IsDownload : (w : Response) → Going (true, w) → IsDownload name w
  unfolding attached staged content_disposition
  streamed-IsDownload w (sent, all) = streamed attached.headers sent refl all

  downloaded-IsDownload :
      (q : Result (Unit {0}) × (StreamWriter × S))
      → Going q.1.0
      → IsDownload name (downloaded svc decode q).1.0
  unfolding downloaded
  downloaded-IsDownload (ok a, ((false, w), s)) g =
      subst (IsDownload name) (sym g) attached-IsDownload
  downloaded-IsDownload (ok a, ((true, w), s)) g = streamed-IsDownload w g
  downloaded-IsDownload (panicked, ((false, w), s)) g =
      subst (IsDownload name) (sym g) attached-IsDownload
  downloaded-IsDownload (panicked, ((true, w), s)) g = streamed-IsDownload w g
  downloaded-IsDownload (err e, ((false, w), s)) g =
      subst (λ w. IsDownload name (write_drive_error e (unstaged svc decode w))) (sym g)
        (envelope-IsDownload e)
  downloaded-IsDownload (err e, ((true, w), s)) g = streamed-IsDownload w g

-- A download that begins with a response to which nothing was sent ends with one that is still unsent,
-- or carries bytes of the file alone as an attachment of the name, or the error envelope alone with
-- status 500 and as no attachment, whatever the service does, if it reaches the response by the writer only.
pub stream_download-IsDownload :
    {R S : Type 0} (svc : DriveService R S) (decode : DriveDecoders R)
    (accepts : Bytes → Response → ℕ × Option Error) (folder : Folder) (id : ℤ) (name : Bytes)
    (w : Response) (s : S)
    → UsesWriter svc
    → w.sent ≡ none
    → w.body ≡ []
    → IsDownload
        (download_name svc decode id name)
        (stream_download svc decode accepts folder id name (w, s)).1.0
unfolding stream_download content_disposition attached
stream_download-IsDownload svc decode accepts folder id name w s uses blank empty =
    let shown = download_name svc decode id name in
    downloaded-IsDownload svc decode accepts shown w blank empty _ (
      uses (Going svc decode accepts shown w blank empty) (stream_write accepts) folder id
        (false, staged svc decode shown w) s
        (stream_write-Going svc decode accepts shown w blank empty) refl)
