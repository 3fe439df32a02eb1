-- ===== src/Http/Mounted.antt =====
-- internal/drive as internal/httpapi mounts it: driveService behind drive.Service, and what a request
-- does to the index in the end.
use telecollection.Prelude.{ℤ, ◌≡◌, Bytes, Bool, none, some, ok, Action, ◌>>=◌}
use telecollection.Strings.{Unicode}
use telecollection.Telegram.{Api, InputChannel, Updates, Document}
use telecollection.Store.{Store}
use telecollection.Store.Contract.{View, Contract}
use telecollection.Transfer.{Context}
use telecollection.Transfer.Download.{Stream}
use telecollection.Drive.{Conn}
use telecollection.Drive.Effects.{Pruned}
use telecollection.Drive.Results.{delete_file-Pruned}
use telecollection.Drive.Service
use telecollection.Drive.Service.{strict}
use telecollection.Http.Response.{Response, FolderJson}
use telecollection.Http.Requests.{DriveDecoders, to_folder}
use telecollection.Http.DriveRoutes.{DriveService, StreamWriter, delete_files}
use telecollection.Http.DriveRoutes.Answers.{status_of, delete_files-deleted}

-- A method that has no writer.
abbrev pub plain : {W D A : Type 0} → Action ((Unit {0} × W) × D) A → Action (W × D) A
plain m (w, d) = let (r, ((x, w'), d')) = m ((tt, w), d) in (r, (w', d'))

-- A method with the writer of a download.
abbrev pub streaming : {V W D A : Type 0} → Action ((V × W) × D) A → Action (V × (W × D)) A
streaming m (v, (w, d)) = let (r, ((v', w'), d')) = m ((v, w), d) in (r, (v', (w', d')))

-- What driveService takes from outside: the connection, whoever calls it, the randomness of a move,
-- and gotd's uploader, sender and downloader.
pub record Outside (W R F L : Type 0) : Type 0 where
  pub conn : Conn (Unit {0} × W)
  pub stream_conn : Conn (StreamWriter × W)
  pub rand_int64 : Unit {0} × W → ℤ × (Unit {0} × W)
  pub upload_bytes : Api (Unit {0} × W) → Bytes → R → ℤ → Action (Unit {0} × W) F
  pub send_media :
      Api (Unit {0} × W)
      → InputChannel
      → F
      → (filename mime : Bytes) → (force_file : Bool) → Action (Unit {0} × W) Updates
  pub ctx : Context W
  pub location : Document → L
  pub stream : Api (StreamWriter × W) → L → Stream (ℤ × StreamWriter) W

-- New
unfoldable pub drive_service :
    {W R F L D : Type 0} → Unicode → Store D → Outside W R F L → DriveService R (W × D)
drive_service u store o = record {
  list_folders = plain (Service.list_folders u o.conn store);
  create_folder = λ name. plain (Service.create_folder u o.conn store name >>= strict);
  rename_folder = λ folder name. plain (Service.rename_folder u o.conn store folder name);
  delete_folder = λ folder. plain (Service.delete_folder u o.conn store folder);
  list_files = λ folder. plain (Service.list_files u o.conn store folder);
  upload_file = λ folder name r size mime. plain (
      Service.upload_file u o.conn store o.upload_bytes o.send_media folder name (some r) size mime
      >>= strict);
  download_file = λ folder id write.
      streaming
        (Service.download_file o.stream_conn o.ctx o.location o.stream folder id (some write) none);
  rename_file = λ folder id name. plain (Service.rename_file u o.conn store folder id name);
  move_file =
      λ src id dst. plain (Service.move_file u o.conn store o.rand_int64 src id dst >>= strict);
  delete_file = λ folder id. plain (Service.delete_file u o.conn store folder id);
}

plain-ok :
    {W D : Type 0} (m : Action ((Unit {0} × W) × D) (Unit {0})) (w w' : W) (d d' : D)
    → plain m (w, d) ≡ (ok tt, (w', d'))
    → m ((tt, w), d) ≡ (ok tt, ((tt, w'), d'))
plain-ok m w w' d d' h = λ i. ((h i).0, ((tt, (h i).1.0), (h i).1.1))

-- If the store keeps its contract: a DELETE /files on a response to which nothing was sent that is
-- answered 204 had a body that names a file, and leaves its folder in the index without
-- the file, and every other file as it was.
pub delete_files-Pruned :
    {W R F L D : Type 0} (u : Unicode) (store : Store D) {Valid : D → Type 0} {view : D → View}
    (c : Contract store Valid view) (o : Outside W R F L) (decode : DriveDecoders R) (body : Bytes)
    (resp resp' : Response) (w w' : W) (d d' : D)
    → Valid d
    → resp.sent ≡ none
    → status_of resp' ≡ some 204
    → delete_files (drive_service u store o) decode body (resp, (w, d)) ≡ (ok tt, (resp', (w', d')))
    → (f : FolderJson) × (id : ℤ) × (decode.file_ref body ≡ some (f, id))
      × Valid d'
      × Pruned (view d) (view d') f.channel_id id
unfolding drive_service
delete_files-Pruned u store c o decode body resp resp' w w' d d' valid blank st eq =
    let (f, id, named, deleted) =
      delete_files-deleted (drive_service u store o) decode body resp resp' (w, d) (w', d') blank st
        eq in
    let (valid', pruned) =
      delete_file-Pruned u o.conn store c (to_folder f) id (tt, w) (tt, w') d d' valid
        (plain-ok (Service.delete_file u o.conn store (to_folder f) id) w w' d d' deleted) in
    (f, id, named, valid', pruned)
