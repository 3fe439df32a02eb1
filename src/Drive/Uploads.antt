-- ===== src/Drive/Uploads.antt =====
-- What UploadFile does to the index, over a store that keeps its contract.
use telecollection.Prelude.{
  ℤ, pos, ◌==ℤ◌, ◌≡◌, refl, ◌∙◌, Bytes, Bool, ◌&&◌, Option, none, some, if◌then◌else◌, ok, Action,
  wrapping, pure, Yields, Yields-bind, Yields-wrapping, Yields-pure,
}
use telecollection.Strings.{Unicode}
use telecollection.Telegram.{Api, InputChannel, Updates}
use telecollection.Store.{File, Store}
use telecollection.Store
use telecollection.Store.Contract.{View, Contract}
use telecollection.Dialogs.{Folder}
use telecollection.Upload
use telecollection.Drive.{Conn, with_api, local, ensure_folder}
use telecollection.Drive.Reindex.{Ensured, ensuring, putting_file}
use telecollection.Drive.Results.{Yields-local, Yields-remote, Yields-keeping}
use telecollection.Drive.Service
use telecollection.Drive.Service.{keeping, save_uploaded}
use telecollection.Index.{upsert_file}

-- The file stands in the index under the row of its folder, and no other file is touched.
pub record Saved (v w : View) (channel : ℤ) (f : File) : Type 0 where
  pub row : Store.Folder
  pub found : w.folder (pos 0) channel ≡ some row
  pub placed : f.folder_id ≡ row.id
  pub file :
      (a b : ℤ)
      → w.file a b ≡ (if (f.folder_id ==ℤ a) && (f.message_id ==ℤ b) then some f else v.file a b)

module _ (u : Unicode) {T D : Type 0} (conn : Conn T) (store : Store D) {Valid : D → Type 0}
    {view : D → View} (c : Contract store Valid view) where
  saving :
      (folder : Folder) (uploaded : File) (row : Store.Folder) (d0 : D) (t : T) (d : D)
      → Valid d
      → Ensured (view d0) (view d) folder.channel_id row
      → uploaded.folder_id ≡ row.id
      → Yields
          (save_uploaded u conn store uploaded)
          (t, d)
          (λ r s. r.1 ≡ none → Valid s.1 × Saved (view d0) (view s.1) folder.channel_id r.0)
  saving folder uploaded row d0 t d valid ens placed =
      Yields-keeping uploaded _ (t, d)
        (Yields-bind (wrapping "drive: indexing uploaded file" (local (upsert_file store uploaded)))
          (λ saved. pure (saved, none))
          (Yields-wrapping "drive: indexing uploaded file" (local (upsert_file store uploaded))
            (Yields-local (upsert_file store uploaded) t d (putting_file store c d valid uploaded)))
          (λ g s (valid', put).
            Yields-pure (g, none)
              (λ _. (
                valid',
                record {
                  row = row;
                  found = put.folder (pos 0) folder.channel_id ∙ ens.found;
                  placed = put.folder_id ∙ placed;
                  file =
                      λ a b. put.file a b ∙ rw (put.folder_id, put.message_id, ens.file a b) refl;
                },
              ))))
        (λ e s' q. cc)

  module _ {R F : Type 0} (upload_bytes : Api T → Bytes → R → ℤ → Action T F)
      (send_media : Api T
        → InputChannel
        → F
        → (filename mime : Bytes) → Bool
        → Action T Updates) where
    -- If the store keeps its contract: an UploadFile that returns a file and no error has put that
    -- file into the index, under the row of its folder and its message id, and left every other file
    -- as it was.
    pub upload_file-Saved :
        (folder : Folder) (name : Bytes) (r : Option R) (size : ℤ) (mime : Bytes) (f : File)
        (t t' : T) (d d' : D)
        → Valid d
        → Service.upload_file u conn store upload_bytes send_media folder name r size mime (t, d)
          ≡ (ok (f, none), (t', d'))
        → Valid d' × Saved (view d) (view d') folder.channel_id f
    unfolding Service.upload_file
    upload_file-Saved folder name r size mime f t t' d d' valid h =
        (Yields-remote "drive: upload file"
            (with_api conn (λ api. Upload.file upload_bytes send_media api folder name r size mime))
            _ t d
            (λ uploaded s.
              Yields-keeping uploaded _ (s, d)
                (Yields-bind _
                  (λ row. save_uploaded u conn store (record uploaded { folder_id = row.id }))
                  (Yields-wrapping _ _ (
                    Yields-local (ensure_folder u store folder) s d
                      (ensuring u store c folder d valid)))
                  (λ row s' (valid', ens).
                    saving folder (record uploaded { folder_id = row.id }) row d s'.0 s'.1 valid'
                      ens refl))
                (λ e s' q. cc))).at
          h refl
