-- ===== src/Http/Requests.antt =====
-- internal/httpapi/drive_routes.go: how the file endpoints read a request.
use telecollection.Prelude.{
  ℤ, Bytes, codes, is_empty, Bool, not, ◌||◌, String, Option, none, some, if◌then◌else◌,
}
use telecollection.Dialogs.{Folder}
use telecollection.Http.Response.{FolderJson, write_error}
use telecollection.Http.AuthRoutes.{Handler, respond, decode_body}

-- toFolder
abbrev pub to_folder : FolderJson → Folder
to_folder f = record { channel_id = f.channel_id; access_hash = f.access_hash; title = f.title }

-- A multipart form: FormValue, and FormFile of "file" with its name and size.
pub record Form (R : Type 0) : Type 0 where
  pub value : Bytes → Bytes
  pub file_part : Option (R × (Bytes × ℤ))

-- The bodies of the requests, and strconv.ParseInt and Atoi.
pub record DriveDecoders (R : Type 0) : Type 0 where
  pub name : Bytes → Option Bytes
  pub folder : Bytes → Option FolderJson
  pub folder_new_name : Bytes → Option (FolderJson × Bytes)
  pub file_ref : Bytes → Option (FolderJson × ℤ)
  pub file_ref_name : Bytes → Option (FolderJson × (ℤ × Bytes))
  pub file_ref_new_name : Bytes → Option (FolderJson × (ℤ × Bytes))
  pub move : Bytes → Option (FolderJson × (ℤ × FolderJson))
  -- MaxBytesReader and ParseMultipartForm, whose form has the values of the URL's query as well
  pub form : (limit memory : ℤ) → (Bytes → Bytes) → Bytes → Option (Form R)
  pub parse_int : Bytes → Option ℤ
  pub atoi : Bytes → Option ℤ
  pub itoa : ℤ → Bytes

-- r.URL.Query().Get
abbrev pub Query : Type 0
Query = Bytes → Bytes

abbrev pub names_folder : Query → Bool
names_folder q = not (is_empty (q (codes "channel_id"))) || not (is_empty (q (codes "access_hash")))

module _ {R S : Type 0} (decode : DriveDecoders R) where
  -- The folder of two numbers that may not parse.
  unfoldable pub with_ids : String → Option ℤ → Option ℤ → Bytes → (Folder → Handler S) → Handler S
  unfolding write_error
  with_ids message (some c) (some a) title k =
      k (record { channel_id = c; access_hash = a; title = title })
  with_ids message (some c) none title k = respond (write_error 400 "BAD_REQUEST" message)
  with_ids message none a title k = respond (write_error 400 "BAD_REQUEST" message)

  -- folderFromRequest, with what follows it.
  unfoldable pub folder_from_request : Query → Bytes → (Folder → Handler S) → Handler S
  unfolding with_ids decode_body
  folder_from_request q body k =
      if names_folder q
      then with_ids "invalid folder identifiers" (decode.parse_int (q (codes "channel_id")))
          (decode.parse_int (q (codes "access_hash"))) (q (codes "title")) k
      else decode_body (decode.folder body) (λ f. k (to_folder f))

  unfoldable pub with_msg_id : Option ℤ → (ℤ → Handler S) → Handler S
  unfolding write_error
  with_msg_id (some id) k = k id
  with_msg_id none k = respond (write_error 400 "BAD_REQUEST" "invalid file reference")

  -- fileRefFromRequest, with what follows it.
  unfoldable pub file_ref_from_request :
      Query → Bytes → (Folder → ℤ → Bytes → Handler S) → Handler S
  unfolding with_ids with_msg_id decode_body
  file_ref_from_request q body k =
      if names_folder q
      then with_ids "invalid file reference" (decode.parse_int (q (codes "channel_id")))
          (decode.parse_int (q (codes "access_hash"))) (q (codes "title"))
          (λ folder.
            with_msg_id (decode.atoi (q (codes "msg_id"))) (λ id. k folder id (q (codes "name"))))
      else decode_body (decode.file_ref_name body) (λ (f, (id, name)). k (to_folder f) id name)
