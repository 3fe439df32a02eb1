-- ===== src/Http/DriveRoutes/Keeping.antt =====
-- The file endpoints leave the header of the origin as it is.
use telecollection.Prelude.{
  ℕ, ℤ, take, codes, map, Bytes, String, true, false, Bool-cases, Option, none, some, ◌⊎◌, inl, inr,
  Result, ok, err, panicked, Error, Action,
}
use telecollection.Dialogs.{Folder}
use telecollection.Http.Response.{
  Response, Payload, folder_list, one_folder, file_list, one_file, new_msg_id, write_bytes, raw,
}
use telecollection.Http.AuthRoutes.{Handler}
use telecollection.Http.Requests.{
  DriveDecoders, Form, Query, with_ids, with_msg_id, names_folder, folder_from_request,
  file_ref_from_request, to_folder,
}
use telecollection.Http.DriveRoutes.{
  StreamWriter, DriveService, stream_write, answered, no_content, ok_json, answer, get_folders,
  post_folders, patch_folders, delete_folders, get_files, upload_part, upload_form, post_files,
  staged, unstaged, folder_to_json, download_name, downloaded, stream_download, get_download,
  patch_files, post_move, delete_files,
}
use telecollection.Http.DriveRoutes.Downloading.{UsesWriter}
use telecollection.Http.Kept.{
  Shows, Leaves, KeepsIt, KeepsIt-respond, KeepsIt-call, KeepsIt-decode_body, write_header-Leaves,
  write_chunk-Leaves, write_json-Leaves, write_error-Leaves, write_drive_error-Leaves,
}

module _ (o : Option Bytes) where
  answered-Leaves :
      {A : Type 0} (f : A → Response → Response)
      → ((a : A) → Leaves o (f a))
      → (r : Error ⊎ A) → Leaves o (answered f r)
  unfolding answered
  answered-Leaves f l (inl e) = write_drive_error-Leaves o e
  answered-Leaves f l (inr a) = l a

  no_content-Leaves : (a : Unit {0}) → Leaves o (no_content a)
  unfolding no_content
  no_content-Leaves a = write_header-Leaves o 204

  ok_json-Leaves : {A : Type 0} (f : A → Payload) (a : A) → Leaves o (ok_json f a)
  unfolding ok_json
  ok_json-Leaves f a = write_json-Leaves o 200 (f a)

  module _ {R S : Type 0} (decode : DriveDecoders R) where
    with_ids-keeps :
        (message : String) (c a : Option ℤ) (title : Bytes) (k : Folder → Handler S)
        → ((f : Folder) → KeepsIt o (k f))
        → KeepsIt o (with_ids decode message c a title k)
    unfolding with_ids
    with_ids-keeps message (some c) (some a) title k kk = kk _
    with_ids-keeps message (some c) none title k kk =
        KeepsIt-respond o _ (write_error-Leaves o 400 "BAD_REQUEST" message)
    with_ids-keeps message none a title k kk =
        KeepsIt-respond o _ (write_error-Leaves o 400 "BAD_REQUEST" message)

    folder_from_request-keeps :
        (q : Query) (body : Bytes) (k : Folder → Handler S)
        → ((f : Folder) → KeepsIt o (k f))
        → KeepsIt o (folder_from_request decode q body k)
    unfolding folder_from_request
    folder_from_request-keeps q body k kk = elim (Bool-cases (names_folder q)) [
      | inl t ↦ rw (t, folder_from_request) (with_ids-keeps _ _ _ _ k kk)
      | inr t ↦
          rw (t, folder_from_request) (KeepsIt-decode_body o (decode.folder body) _ (λ f. kk _))
    ]

    with_msg_id-keeps :
        (id : Option ℤ) (k : ℤ → Handler S)
        → ((id : ℤ) → KeepsIt o (k id))
        → KeepsIt o (with_msg_id decode id k)
    unfolding with_msg_id
    with_msg_id-keeps (some id) k kk = kk id
    with_msg_id-keeps none k kk =
        KeepsIt-respond o _ (write_error-Leaves o 400 "BAD_REQUEST" "invalid file reference")

    file_ref_from_request-keeps :
        (q : Query) (body : Bytes) (k : Folder → ℤ → Bytes → Handler S)
        → ((f : Folder) (id : ℤ) (name : Bytes) → KeepsIt o (k f id name))
        → KeepsIt o (file_ref_from_request decode q body k)
    unfolding file_ref_from_request
    file_ref_from_request-keeps q body k kk = elim (Bool-cases (names_folder q)) [
      | inl t ↦
          rw (t, file_ref_from_request)
            (with_ids-keeps "invalid file reference" (decode.parse_int (q (codes "channel_id")))
              (decode.parse_int (q (codes "access_hash"))) (q (codes "title"))
              (λ f.
                with_msg_id decode (decode.atoi (q (codes "msg_id")))
                  (λ id. k f id (q (codes "name"))))
              (λ f.
                with_msg_id-keeps (decode.atoi (q (codes "msg_id")))
                  (λ id. k f id (q (codes "name"))) (λ id. kk f id (q (codes "name")))))
      | inr t ↦
          rw (t, file_ref_from_request)
            (KeepsIt-decode_body o (decode.file_ref_name body) _ (λ (f, (id, name)). kk _ id name))
    ]

  module _ {R S : Type 0} (svc : DriveService R S) (decode : DriveDecoders R) where
    answer-keeps :
        {A : Type 0} (f : A → Response → Response) (m : Action S A)
        → ((a : A) → Leaves o (f a))
        → KeepsIt o (answer svc decode f m)
    unfolding answer
    answer-keeps f m l = KeepsIt-call o m (answered f) (answered-Leaves f l)

    pub get_folders-keeps : KeepsIt o (get_folders svc decode)
    unfolding get_folders
    get_folders-keeps =
        answer-keeps (ok_json (λ fs. folder_list (map folder_to_json fs))) svc.list_folders
          (ok_json-Leaves (λ fs. folder_list (map folder_to_json fs)))

    pub post_folders-keeps : (body : Bytes) → KeepsIt o (post_folders svc decode body)
    unfolding post_folders
    post_folders-keeps body = KeepsIt-decode_body o (decode.name body) _ (λ name.
        answer-keeps (ok_json (λ f. one_folder (folder_to_json f))) (svc.create_folder name)
          (ok_json-Leaves (λ f. one_folder (folder_to_json f))))

    pub patch_folders-keeps : (body : Bytes) → KeepsIt o (patch_folders svc decode body)
    unfolding patch_folders
    patch_folders-keeps body = KeepsIt-decode_body o (decode.folder_new_name body) _ (λ (f, name).
        answer-keeps no_content (svc.rename_folder (to_folder f) name) no_content-Leaves)

    pub delete_folders-keeps : (body : Bytes) → KeepsIt o (delete_folders svc decode body)
    unfolding delete_folders
    delete_folders-keeps body =
        KeepsIt-decode_body o (decode.folder body) _
          (λ f. answer-keeps no_content (svc.delete_folder (to_folder f)) no_content-Leaves)

    pub get_files-keeps : (q : Query) (body : Bytes) → KeepsIt o (get_files svc decode q body)
    unfolding get_files
    get_files-keeps q body =
        folder_from_request-keeps decode q body _
          (λ f. answer-keeps (ok_json file_list) (svc.list_files f) (ok_json-Leaves file_list))

    upload_part-keeps :
        (form : Form R) (part : Option (R × (Bytes × ℤ))) (f : Folder)
        → KeepsIt o (upload_part svc decode form part f)
    unfolding upload_part
    upload_part-keeps form none f =
        KeepsIt-respond o _ (write_error-Leaves o 400 "BAD_REQUEST" "missing file part")
    upload_part-keeps form (some (r, (filename, size))) f =
        answer-keeps (ok_json one_file) _ (ok_json-Leaves one_file)

    upload_form-keeps : (form : Option (Form R)) → KeepsIt o (upload_form svc decode form)
    unfolding upload_form
    upload_form-keeps none =
        KeepsIt-respond o _ (write_error-Leaves o 400 "BAD_REQUEST" "invalid multipart body")
    upload_form-keeps (some form) =
        with_ids-keeps decode "invalid folder identifiers"
          (decode.parse_int (form.value (codes "channel_id")))
          (decode.parse_int (form.value (codes "access_hash"))) (form.value (codes "title"))
          (upload_part svc decode form form.file_part) (upload_part-keeps form form.file_part)

    pub post_files-keeps : (q : Query) (body : Bytes) → KeepsIt o (post_files svc decode q body)
    unfolding post_files
    post_files-keeps q body = upload_form-keeps _

    pub patch_files-keeps : (body : Bytes) → KeepsIt o (patch_files svc decode body)
    unfolding patch_files
    patch_files-keeps body =
        KeepsIt-decode_body o (decode.file_ref_new_name body) _ (λ (f, (id, name)).
          answer-keeps no_content (svc.rename_file (to_folder f) id name) no_content-Leaves)

    pub post_move-keeps : (body : Bytes) → KeepsIt o (post_move svc decode body)
    unfolding post_move
    post_move-keeps body = KeepsIt-decode_body o (decode.move body) _ (λ (src, (id, dst)).
        answer-keeps (ok_json new_msg_id) (svc.move_file (to_folder src) id (to_folder dst))
          (ok_json-Leaves new_msg_id))

    pub delete_files-keeps : (body : Bytes) → KeepsIt o (delete_files svc decode body)
    unfolding delete_files
    delete_files-keeps body =
        KeepsIt-decode_body o (decode.file_ref body) _
          (λ (f, id). answer-keeps no_content (svc.delete_file (to_folder f) id) no_content-Leaves)

    downloaded-Shows :
        (q : Result (Unit {0}) × (StreamWriter × S))
        → Shows o q.1.0.1
        → Shows o (downloaded svc decode q).1.0
    unfolding downloaded
    downloaded-Shows (ok a, ((wrote, w), s)) h = h
    downloaded-Shows (panicked, ((wrote, w), s)) h = h
    downloaded-Shows (err e, ((true, w), s)) h = h
    downloaded-Shows (err e, ((false, w), s)) h =
        write_drive_error-Leaves o e (unstaged svc decode w) h

    module _ (accepts : Bytes → Response → ℕ × Option Error) (uses : UsesWriter svc) where
      stream_write-Shows :
          (p : Bytes) (x : StreamWriter) → Shows o x.1 → Shows o (stream_write accepts p x).1.1
      unfolding stream_write write_bytes
      stream_write-Shows p (wrote, w) h = write_chunk-Leaves o (raw (take (accepts p w).0 p)) w h

      stream_download-keeps :
          (folder : Folder) (id : ℤ) (name : Bytes)
          → KeepsIt o (stream_download svc decode accepts folder id name)
      unfolding stream_download staged
      stream_download-keeps folder id name = record {
        at = λ (w, s) h.
            let x : StreamWriter =
              (false, staged svc decode (download_name svc decode id name) w) in
            downloaded-Shows (svc.download_file folder id (stream_write accepts) (x, s))
              (uses (λ x. Shows o x.1) (stream_write accepts) folder id x s stream_write-Shows h);
      }

      pub get_download-keeps :
          (q : Query) (body : Bytes) → KeepsIt o (get_download svc decode accepts q body)
      unfolding get_download
      get_download-keeps q body =
          file_ref_from_request-keeps decode q body
            (λ folder id name. stream_download svc decode accepts folder id name)
            stream_download-keeps
