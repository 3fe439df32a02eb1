-- ===== src/Http/Blurring/DriveAnswers.antt =====
-- The file endpoints do not show the text of an error.
use telecollection.Prelude.{
  ℕ, ℤ, Bytes, ◌≡◌, refl, map, Option, none, some, Result, ok, err, panicked, Error, Action, codes,
  false,
}
use telecollection.Dialogs.{Folder}
use telecollection.Http.Response.{
  Response, write_drive_error, folder_list, one_folder, file_list, one_file, new_msg_id,
}
use telecollection.Http.AuthRoutes.{respond, decode_body}
use telecollection.Http.Requests.{
  to_folder, Form, DriveDecoders, Query, with_ids, folder_from_request, file_ref_from_request,
}
use telecollection.Http.DriveRoutes.{
  DriveService, StreamWriter, answered, answer, ok_json, no_content, folder_to_json, get_folders,
  post_folders, patch_folders, delete_folders, get_files, upload_part, upload_form, post_files,
  downloaded, download_name, staged, stream_write, stream_download, get_download, patch_files,
  post_move, delete_files,
}
use telecollection.Http.Blurring.{blurred_result, blurring, blurred_drive, call-blurred}

module _ (blur : Error → Error) {R S : Type 0} (svc : DriveService R S)
    (decode : DriveDecoders R) where
  abbrev blurred : DriveService R S
  blurred = blurred_drive blur svc

  answer-blurred :
      {A : Type 0} (f : A → Response → Response) (m : Action S A)
      → answer blurred decode f (blurring blur m) ≡ answer svc decode f m
  unfolding answer answered write_drive_error
  answer-blurred f m = call-blurred blur (λ r. respond (answered f r)) (λ e. refl) m

  pub get_folders-blurred : get_folders blurred decode ≡ get_folders svc decode
  unfolding get_folders
  get_folders-blurred =
      answer-blurred (ok_json (λ fs. folder_list (map folder_to_json fs))) svc.list_folders

  pub post_folders-blurred :
      (body : Bytes) → post_folders blurred decode body ≡ post_folders svc decode body
  unfolding post_folders
  post_folders-blurred body i = decode_body (decode.name body) (λ name.
      answer-blurred (ok_json (λ f. one_folder (folder_to_json f))) (svc.create_folder name) i)

  pub patch_folders-blurred :
      (body : Bytes) → patch_folders blurred decode body ≡ patch_folders svc decode body
  unfolding patch_folders
  patch_folders-blurred body i =
      decode_body (decode.folder_new_name body)
        (λ (f, name). answer-blurred no_content (svc.rename_folder (to_folder f) name) i)

  pub delete_folders-blurred :
      (body : Bytes) → delete_folders blurred decode body ≡ delete_folders svc decode body
  unfolding delete_folders
  delete_folders-blurred body i =
      decode_body (decode.folder body)
        (λ f. answer-blurred no_content (svc.delete_folder (to_folder f)) i)

  pub get_files-blurred :
      (q : Query) (body : Bytes) → get_files blurred decode q body ≡ get_files svc decode q body
  unfolding get_files
  get_files-blurred q body i =
      folder_from_request decode q body
        (λ folder. answer-blurred (ok_json file_list) (svc.list_files folder) i)

  upload_part-blurred :
      (form : Form R) (part : Option (R × (Bytes × ℤ))) (folder : Folder)
      → upload_part blurred decode form part folder ≡ upload_part svc decode form part folder
  unfolding upload_part
  upload_part-blurred form none folder = refl
  upload_part-blurred form (some (r, (filename, size))) folder = answer-blurred (ok_json one_file) _

  upload_form-blurred :
      (form : Option (Form R)) → upload_form blurred decode form ≡ upload_form svc decode form
  unfolding upload_form
  upload_form-blurred none = refl
  upload_form-blurred (some form) = λ i.
      with_ids decode "invalid folder identifiers"
        (decode.parse_int (form.value (codes "channel_id")))
        (decode.parse_int (form.value (codes "access_hash"))) (form.value (codes "title"))
        (λ folder. upload_part-blurred form form.file_part folder i)

  pub post_files-blurred :
      (q : Query) (body : Bytes) → post_files blurred decode q body ≡ post_files svc decode q body
  unfolding post_files
  post_files-blurred q body = upload_form-blurred _

  downloaded-blurred :
      (r : Result (Unit {0})) (x : StreamWriter) (s : S)
      → downloaded blurred decode (blurred_result blur r, (x, s))
        ≡ downloaded svc decode (r, (x, s))
  unfolding downloaded write_drive_error
  downloaded-blurred (ok a) x s = refl
  downloaded-blurred (err e) x s = refl
  downloaded-blurred panicked x s = refl

  stream_download-blurred :
      (accepts : Bytes → Response → ℕ × Option Error) (folder : Folder) (id : ℤ) (name : Bytes)
      → stream_download blurred decode accepts folder id name
        ≡ stream_download svc decode accepts folder id name
  unfolding stream_download
  stream_download-blurred accepts folder id name i (w, s) =
      let (r, (x, s')) =
        svc.download_file folder id (stream_write accepts)
          ((false, staged svc decode (download_name svc decode id name) w), s) in
      downloaded-blurred r x s' i

  pub get_download-blurred :
      (accepts : Bytes → Response → ℕ × Option Error) (q : Query) (body : Bytes)
      → get_download blurred decode accepts q body ≡ get_download svc decode accepts q body
  unfolding get_download
  get_download-blurred accepts q body i =
      file_ref_from_request decode q body
        (λ folder id name. stream_download-blurred accepts folder id name i)

  pub patch_files-blurred :
      (body : Bytes) → patch_files blurred decode body ≡ patch_files svc decode body
  unfolding patch_files
  patch_files-blurred body i =
      decode_body (decode.file_ref_new_name body)
        (λ (f, (id, name)). answer-blurred no_content (svc.rename_file (to_folder f) id name) i)

  pub post_move-blurred : (body : Bytes) → post_move blurred decode body ≡ post_move svc decode body
  unfolding post_move
  post_move-blurred body i = decode_body (decode.move body) (λ (src, (id, dst)).
      answer-blurred (ok_json new_msg_id) (svc.move_file (to_folder src) id (to_folder dst)) i)

  pub delete_files-blurred :
      (body : Bytes) → delete_files blurred decode body ≡ delete_files svc decode body
  unfolding delete_files
  delete_files-blurred body i =
      decode_body (decode.file_ref body)
        (λ (f, id). answer-blurred no_content (svc.delete_file (to_folder f) id) i)
