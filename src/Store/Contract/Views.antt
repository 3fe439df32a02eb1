-- ===== src/Store/Contract/Views.antt =====
-- A store whose methods did what they should to the rows keeps the contract; both stores are such.
use mathlib.Core.Option
use telecollection.Prelude.{◌==ℤ◌, ◌≡◌, refl, ap, ◌∙◌, Option, some, ok}
use telecollection.Store.{Time, Folder, File, Store}
use telecollection.Store.Postgres.{postgres}
use telecollection.Store.Keys.{at-delete}
use telecollection.Store.Engine.{Db, FileRow}
use telecollection.Store.Sqlite.{Json, nullable_id, scan_folder, scan_file, sqlite}
use telecollection.Store.Sound.{IsSound, KeepsAll, sqlite-IsSound, postgres-IsSound}
use telecollection.Store.Rows.{file_row, folder_row-insert, file_row-insert}
use telecollection.Store.Contract.Outcomes.{Outcomes, sqlite-Outcomes, postgres-Outcomes}
use telecollection.Store.Contract.{FolderPut, FilePut, Contract}
use telecollection.Store.Contract.Maps.{
  view_of, list_files-at, list_folders-at, map-without_id, row-key, file_id-scan, put_folder-key,
  put_file-key, put_file-manifest, put_file-kept, map-if,
}

module _ {S : Type 0} (time_parse : S → Option Time) (st : Store (Db S))
    (out : Outcomes time_parse st) where
  folder-put :
      (f : Folder) (db : Db S) {g : Folder} {db' : Db S}
      → IsSound db
      → st.create_folder f db ≡ (ok g, db')
      → FolderPut (view_of time_parse db) (view_of time_parse db') f g
  folder-put f db sound h =
      let (e, q, q') = out.create_folder f db sound h in
      let (a, c, n) = put_folder-key time_parse db f in
      record {
        folder = λ x y.
            rw (q', e)
              (ap (Option.map (scan_folder time_parse)) (folder_row-insert db f x y)
                ∙ map-if (scan_folder time_parse) _ _ _);
        file = λ x y. rw q refl;
        account = rw e a;
        channel = rw e c;
        name = rw e n;
      }

  file-put :
      (f : File) (db : Db S) {g : File} {db' : Db S}
      → IsSound db
      → st.upsert_file f db ≡ (ok g, db')
      → FilePut (view_of time_parse db) (view_of time_parse db') f g
  file-put f db sound h =
      let o = nullable_id f.chunk_manifest_id in
      let (e, q, q') = out.upsert_file f db sound h in
      let (i, m, n, z, k) = put_file-key time_parse db f o in
      record {
        folder = λ x y. rw q' refl;
        file = λ x y.
            rw (q, e)
              (ap (Option.map (scan_file time_parse)) (file_row-insert db f o x y)
                ∙ map-if (scan_file time_parse) _ _ _);
        folder_id = rw e i;
        message_id = rw e m;
        name = rw e n;
        size = rw e z;
        mime = rw e k;
        manifest = rw e (put_file-manifest time_parse db f);
        kept = λ old w. rw e (put_file-kept time_parse db f old o w);
      }

  Contract-from_outcomes : KeepsAll IsSound st → Contract st IsSound (view_of time_parse)
  Contract-from_outcomes keeps = record {
    keeps = keeps;
    create_folder = λ f db sound h. folder-put f db sound h;
    list_folders = λ account db sound h.
        let (e, q, q') = out.list_folders account db sound h in
        (
          record { folder = λ x y. rw q' refl; file = λ x y. rw q refl },
          λ y. rw e (list_folders-at time_parse account y db),
        );
    upsert_file = λ f db sound h. file-put f db sound h;
    list_files = λ folder db sound h.
        let (e, q, q') = out.list_files folder db sound h in
        (
          record { folder = λ x y. rw q' refl; file = λ x y. rw q refl },
          λ y. rw e (list_files-at time_parse folder y db),
        );
    delete_file = λ i db sound h.
        let (q, q') = out.delete_file i db sound h in
        (
          λ x y. rw q' refl,
          λ x y. rw q (
              ap (Option.map (scan_file time_parse)) (
                at-delete (λ (r : FileRow _). r.folder_id) (λ r. r.message_id) x y (λ r. r.id ==ℤ i)
                  db.files sound.3)
              ∙ map-without_id time_parse i (file_row db x y)),
        );
    file_key = λ x y db f sound h. row-key time_parse db x y f (file_row db x y) refl h;
    file_id = λ x y x' y' db f g sound h h' q.
        file_id-scan time_parse db x y x' y' _ _ f g sound refl refl h h' q;
  }

-- The SQLite store keeps the contract of a store, through every fault of the driver: a method that
-- returns a value has had the effect on the two maps that the contract states.
pub sqlite-Contract :
    {S : Type 0} (time_parse : S → Option Time) (json : Json)
    → Contract (sqlite time_parse json) IsSound (view_of time_parse)
sqlite-Contract time_parse json =
    Contract-from_outcomes time_parse (sqlite time_parse json) (sqlite-Outcomes time_parse json)
      (sqlite-IsSound time_parse json)

-- The Postgres store keeps the contract of a store, through every fault of the driver: a method that
-- returns a value has had the effect on the two maps that the contract states.
pub postgres-Contract :
    {S : Type 0} (scan_time : S → Time) (json : Json)
    → Contract (postgres scan_time json) IsSound (view_of (λ s. some (scan_time s)))
postgres-Contract scan_time json =
    Contract-from_outcomes (λ s. some (scan_time s)) (postgres scan_time json)
      (postgres-Outcomes scan_time json) (postgres-IsSound scan_time json)
