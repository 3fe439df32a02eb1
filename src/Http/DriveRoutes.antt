-- ===== src/Http/DriveRoutes.antt =====
-- internal/httpapi/drive_routes.go: the file endpoints over a drive.Service.
pub mod Downloading
pub mod Answers
pub mod Keeping
use telecollection.Prelude.{
  ℕ, ℤ, pos, Bytes, codes, is_empty, Bool, true, false, not, ◌||◌, String, panicked, ◌++◌, Option,
  none, some, ◌⊎◌, inl, inr, List, map, Result, ok, err, Error, Action, pure, ◌>>=◌, ◌>>◌,
  if◌then◌else◌,
}
use telecollection.Dialogs.{Folder}
use telecollection.Store.{File}
use telecollection.Transfer.{Write}
use telecollection.Http.{content_disposition}
use telecollection.Http.Response.{
  Response, Payload, FolderJson, write_json, write_error, write_drive_error, write_header,
  write_bytes, folder_list, one_folder, file_list, one_file, new_msg_id,
}
use telecollection.Http.AuthRoutes.{Handler, respond, call, decode_body}
use telecollection.Http.Requests.{
  to_folder, Form, DriveDecoders, Query, names_folder, with_ids, folder_from_request, with_msg_id,
  file_ref_from_request,
}

abbrev max_upload_bytes : ℤ
max_upload_bytes = pos 4294967296

abbrev upload_memory_budget : ℤ
upload_memory_budget = pos 16777216

-- folderToJSON
abbrev pub folder_to_json : Folder → FolderJson
folder_to_json f = record {
  channel_id = f.channel_id;
  access_hash = f.access_hash;
  title = f.title;
}

-- The io.Writer of a download: streamWriter.wrote, beside the response.
abbrev pub StreamWriter : Type 0
StreamWriter = Bool × Response

-- drive.Service, for handlers that pass a nil onProgress; `R` is the file of a form. What a method
-- returns beside an error is dropped by the handlers.
pub record DriveService (R S : Type 0) : Type 0 where
  pub list_folders : Action S (List Folder)
  pub create_folder : Bytes → Action S Folder
  pub rename_folder : Folder → Bytes → Action S (Unit {0})
  pub delete_folder : Folder → Action S (Unit {0})
  pub list_files : Folder → Action S (List File)
  pub upload_file : Folder → (name : Bytes) → R → (size : ℤ) → (mime : Bytes) → Action S File
  pub download_file :
      Folder → (msg_id : ℤ) → Write StreamWriter → Action (StreamWriter × S) (Unit {0})
  pub rename_file : Folder → (msg_id : ℤ) → Bytes → Action S (Unit {0})
  pub move_file : Folder → (msg_id : ℤ) → Folder → Action S ℤ
  pub delete_file : Folder → (msg_id : ℤ) → Action S (Unit {0})

-- (*streamWriter).Write
unfoldable pub stream_write : (accepts : Bytes → Response → ℕ × Option Error) → Write StreamWriter
unfolding write_bytes
stream_write accepts p (wrote, w) = let (q, w') = write_bytes accepts p w in (q, (true, w'))

-- The answers to a call of the service.
module _ {A : Type 0} where
  unfoldable pub answered : (A → Response → Response) → Error ⊎ A → Response → Response
  unfolding write_drive_error
  answered f (inl e) = write_drive_error e
  answered f (inr a) = f a

abbrev pub no_content : Unit {0} → Response → Response
unfolding write_header
no_content a = write_header 204

abbrev pub ok_json : {A : Type 0} → (A → Payload) → A → Response → Response
unfolding write_json
ok_json f a = write_json 200 (f a)

module _ {R S : Type 0} (svc : DriveService R S) (decode : DriveDecoders R) where
  unfoldable pub answer : {A : Type 0} → (A → Response → Response) → Action S A → Handler S
  unfolding answered
  answer f m = call m >>= λ r. respond (answered f r)

  -- GET /folders
  unfoldable pub get_folders : Handler S
  unfolding answer ok_json
  get_folders = answer (ok_json (λ fs. folder_list (map folder_to_json fs))) svc.list_folders

  -- POST /folders
  unfoldable pub post_folders : Bytes → Handler S
  unfolding decode_body answer ok_json
  post_folders body =
      decode_body (decode.name body)
        (λ name. answer (ok_json (λ f. one_folder (folder_to_json f))) (svc.create_folder name))

  -- PATCH /folders
  unfoldable pub patch_folders : Bytes → Handler S
  unfolding decode_body answer no_content
  patch_folders body =
      decode_body (decode.folder_new_name body)
        (λ (f, name). answer no_content (svc.rename_folder (to_folder f) name))

  -- DELETE /folders
  unfoldable pub delete_folders : Bytes → Handler S
  unfolding decode_body answer no_content
  delete_folders body =
      decode_body (decode.folder body) (λ f. answer no_content (svc.delete_folder (to_folder f)))

  -- GET /files
  unfoldable pub get_files : Query → Bytes → Handler S
  unfolding folder_from_request answer ok_json
  get_files q body =
      folder_from_request decode q body
        (λ folder. answer (ok_json file_list) (svc.list_files folder))

  unfoldable pub upload_part : Form R → Option (R × (Bytes × ℤ)) → Folder → Handler S
  unfolding answer ok_json write_error
  upload_part form none folder = respond (write_error 400 "BAD_REQUEST" "missing file part")
  upload_part form (some (r, (filename, size))) folder =
      let name = form.value (codes "name") in
      answer (ok_json one_file) (
        svc.upload_file folder (if is_empty name then filename else name) r size
          (form.value (codes "mime")))

  unfoldable pub upload_form : Option (Form R) → Handler S
  unfolding with_ids upload_part write_error
  upload_form none = respond (write_error 400 "BAD_REQUEST" "invalid multipart body")
  upload_form (some form) =
      with_ids decode "invalid folder identifiers"
        (decode.parse_int (form.value (codes "channel_id")))
        (decode.parse_int (form.value (codes "access_hash"))) (form.value (codes "title"))
        (upload_part form form.file_part)

  -- POST /files
  unfoldable pub post_files : Query → Bytes → Handler S
  unfolding upload_form
  post_files q body = upload_form (decode.form max_upload_bytes upload_memory_budget q body)

  abbrev pub staged : Bytes → Response → Response
  unfolding content_disposition
  staged name w = record w {
    headers = record w.headers {
      content_type = some (codes "application/octet-stream");
      content_disposition = some (content_disposition name);
    };
  }

  abbrev pub unstaged : Response → Response
  unstaged w = record w { headers = record w.headers { content_disposition = none } }

  -- What is done with the error of DownloadFile.
  unfoldable pub downloaded :
      Result (Unit {0}) × (StreamWriter × S) → Result (Unit {0}) × (Response × S)
  unfolding write_drive_error
  downloaded (ok a, ((wrote, w), s)) = (ok tt, (w, s))
  downloaded (panicked, ((wrote, w), s)) = (panicked, (w, s))
  downloaded (err e, ((wrote, w), s)) =
      (ok tt, (if wrote then w else write_drive_error e (unstaged w), s))

  abbrev pub download_name : ℤ → Bytes → Bytes
  download_name id name = if is_empty name then codes "file-" ++ decode.itoa id else name

  -- What GET /files/download does with a file reference.
  unfoldable pub stream_download :
      (accepts : Bytes → Response → ℕ × Option Error) → Folder → ℤ → Bytes → Handler S
  unfolding stream_write staged downloaded
  stream_download accepts folder id name (w, s) = downloaded (
      svc.download_file folder id (stream_write accepts)
        ((false, staged (download_name id name) w), s))

  -- GET /files/download
  unfoldable pub get_download :
      (accepts : Bytes → Response → ℕ × Option Error) → Query → Bytes → Handler S
  unfolding file_ref_from_request stream_download
  get_download accepts q body =
      file_ref_from_request decode q body (λ folder id name. stream_download accepts folder id name)

  -- PATCH /files
  unfoldable pub patch_files : Bytes → Handler S
  unfolding decode_body answer no_content
  patch_files body =
      decode_body (decode.file_ref_new_name body)
        (λ (f, (id, name)). answer no_content (svc.rename_file (to_folder f) id name))

  -- POST /files/move
  unfoldable pub post_move : Bytes → Handler S
  unfolding decode_body answer ok_json
  post_move body = decode_body (decode.move body) (λ (src, (id, dst)).
      answer (ok_json new_msg_id) (svc.move_file (to_folder src) id (to_folder dst)))

  -- DELETE /files
  unfoldable pub delete_files : Bytes → Handler S
  unfolding decode_body answer no_content
  delete_files body =
      decode_body (decode.file_ref body)
        (λ (f, id). answer no_content (svc.delete_file (to_folder f) id))
