-- ===== src/Store/Suite.antt =====
-- internal/store/storetest/contract.go: the tests that every store has to pass, each on a fresh store.
-- t.Fatalf ends a test with an error of its text.
pub mod Passing
use telecollection.Prelude.{
  ℕ, ◌==◌, ℤ, pos, ◌==ℤ◌, Bytes, codes, Bool, true, false, not, ◌&&◌, ◌||◌, String, Option, none,
  some, List, [], ◌∷◌, map, same_text, Result, ok, err, panicked, Error, new, wrap, Action, pure,
  raise, wrapping, refuse_if, ◌>>=◌, ◌>>◌,
}
use telecollection.Store.{Time, zero_time, Folder, File, ChunkManifest, Store}

-- errors.Is of store.ErrNotFound, which is known by its text.
unfoldable pub is_not_found : Error → Bool
unfolding same_text
is_not_found (new m) = same_text (codes m) (codes "store: not found")
is_not_found (wrap m e) = is_not_found e

abbrev pub missing : {A : Type 0} → Result A → Bool
missing (ok a) = false
missing (err e) = is_not_found e
missing panicked = false

abbrev pub folder_of : (account channel : ℤ) → String → Folder
folder_of account channel name = record {
  id = pos 0;
  tg_account_id = account;
  channel_id = channel;
  name = codes name;
  created_at = zero_time;
}

abbrev pub chunked_file :
    (folder message : ℤ) → String → (size : ℤ) → String → (manifest : ℤ) → File
chunked_file folder message name size mime manifest = record {
  id = pos 0;
  folder_id = folder;
  message_id = message;
  name = codes name;
  size = size;
  mime = codes mime;
  chunk_manifest_id = manifest;
  created_at = zero_time;
}

abbrev pub file_of : (folder message : ℤ) → String → (size : ℤ) → String → File
file_of folder message name size mime = chunked_file folder message name size mime (pos 0)

abbrev pub manifest_of : (total count : ℤ) → List ℤ → ChunkManifest
manifest_of total count ids = record {
  id = pos 0;
  total_size = total;
  chunk_count = count;
  chunk_message_ids = ids;
  created_at = zero_time;
}

-- Time.IsZero
abbrev pub is_zero : Time → Bool
is_zero t = t ==ℤ zero_time

abbrev pub has_name : String → Bytes → Bool
has_name s b = same_text b (codes s)

module _ {D : Type 0} where
  -- if bad { t.Fatal(…) }
  abbrev pub fatal_if : Bool → String → Action D (Unit {0})
  fatal_if bad message = refuse_if bad (new message)

  -- A call of which the test looks at the error alone.
  abbrev pub expect_missing : {A : Type 0} → String → Action D A → Action D (Unit {0})
  expect_missing message m d = let (r, d') = m d in fatal_if (not (missing r)) message d'

  -- len(list) != 1, and the one element.
  abbrev pub only : {A : Type 0} → String → List A → Action D A
  only message [] = raise (new message)
  only message (a ∷ []) = pure a
  only message (a ∷ b ∷ l) = raise (new message)

  -- len(got) != 2, and what is checked of each.
  abbrev pub both : {A : Type 0} → String → (A → Action D (Unit {0})) → List A → Action D (Unit {0})
  both message test [] = raise (new message)
  both message test (a ∷ []) = raise (new message)
  both message test (a ∷ b ∷ []) = do test a; test b
  both message test (a ∷ b ∷ c ∷ l) = raise (new message)

  -- The loop over the wanted ids; their number was compared before.
  abbrev pub same_ids : List ℤ → List ℤ → Action D (Unit {0})
  same_ids [] [] = pure tt
  same_ids [] (j ∷ want) = raise (new "ChunkMessageIDs")
  same_ids (i ∷ ids) [] = raise (new "ChunkMessageIDs")
  same_ids (i ∷ ids) (j ∷ want) =
      fatal_if (not (i ==ℤ j)) "ChunkMessageIDs (order must be preserved)" >> same_ids ids want

module _ {D : Type 0} (st : Store D) where
  unfoldable pub test_ping : Action D (Unit {0})
  test_ping = wrapping "Ping" st.ping

  unfoldable pub test_create_and_get_folder : Action D (Unit {0})
  test_create_and_get_folder = do
    created ← wrapping "CreateFolder" (st.create_folder (folder_of (pos 1) (pos 100) "Docs"))
    fatal_if (created.id ==ℤ pos 0) "CreateFolder must assign a non-zero ID"
    got ← wrapping "GetFolder" (st.get_folder created.id)
    fatal_if (not (has_name "Docs" got.name) || not (got.channel_id ==ℤ pos 100))
        "GetFolder returned"

  unfoldable pub test_get_folder_not_found : Action D (Unit {0})
  unfolding is_not_found
  test_get_folder_not_found = expect_missing "GetFolder(missing)" (st.get_folder (pos 999999))

  unfoldable pub test_create_folder_is_idempotent : Action D (Unit {0})
  test_create_folder_is_idempotent = do
    first ← wrapping "CreateFolder(first)" (st.create_folder (folder_of (pos 1) (pos 42) "old"))
    second ← wrapping "CreateFolder(second)" (st.create_folder (folder_of (pos 1) (pos 42) "new"))
    fatal_if (not (second.id ==ℤ first.id)) "re-create of same (account, channel) must reuse row"
    list ← wrapping "ListFolders" (st.list_folders (pos 1))
    f ← only "want exactly 1 folder after re-create" list
    fatal_if (not (has_name "new" f.name)) "re-create did not update name"

  unfoldable pub test_list_folders_filters_by_account : Action D (Unit {0})
  test_list_folders_filters_by_account = do
    st.create_folder (folder_of (pos 1) (pos 1) "A")
    st.create_folder (folder_of (pos 2) (pos 2) "B")
    got ← wrapping "ListFolders" (st.list_folders (pos 1))
    f ← only "ListFolders(1), want exactly folder A" got
    fatal_if (not (has_name "A" f.name)) "ListFolders(1), want exactly folder A"

  unfoldable pub test_upsert_and_get_file : Action D (Unit {0})
  test_upsert_and_get_file = do
    folder ← wrapping "CreateFolder" (st.create_folder (folder_of (pos 1) (pos 10) "F"))
    created ←
        wrapping "UpsertFile"
          (st.upsert_file (file_of folder.id (pos 500) "a.pdf" (pos 1234) "application/pdf"))
    fatal_if (created.id ==ℤ pos 0) "UpsertFile must assign a non-zero ID"
    fatal_if (is_zero created.created_at) "UpsertFile must populate CreatedAt"
    got ← wrapping "GetFile" (st.get_file created.id)
    fatal_if
        (not (got.message_id ==ℤ pos 500)
          || not (has_name "a.pdf" got.name)
          || not (got.size ==ℤ pos 1234)
          || not (has_name "application/pdf" got.mime))
        "GetFile returned"

  unfoldable pub test_upsert_file_is_idempotent : Action D (Unit {0})
  test_upsert_file_is_idempotent = do
    folder ← wrapping "CreateFolder" (st.create_folder (folder_of (pos 1) (pos 10) "F"))
    first ←
        wrapping "UpsertFile(first)"
          (st.upsert_file (file_of folder.id (pos 7) "old.txt" (pos 1) "text/plain"))
    second ←
        wrapping "UpsertFile(second)"
          (st.upsert_file (file_of folder.id (pos 7) "new.txt" (pos 2) "text/markdown"))
    fatal_if (not (second.id ==ℤ first.id)) "re-upsert of same (folder, message) must reuse row"
    list ← wrapping "ListFiles" (st.list_files folder.id)
    f ← only "want exactly 1 file after re-upsert" list
    fatal_if
        (not (has_name "new.txt" f.name)
          || not (f.size ==ℤ pos 2)
          || not (has_name "text/markdown" f.mime))
        "re-upsert did not update fields"

  unfoldable pub test_list_files_filters_by_folder : Action D (Unit {0})
  test_list_files_filters_by_folder = do
    f1 ← st.create_folder (folder_of (pos 1) (pos 1) "A")
    f2 ← st.create_folder (folder_of (pos 1) (pos 2) "B")
    st.upsert_file (file_of f1.id (pos 1) "x" (pos 1) "text/plain")
    st.upsert_file (file_of f1.id (pos 2) "y" (pos 1) "text/plain")
    st.upsert_file (file_of f2.id (pos 3) "z" (pos 1) "text/plain")
    got ← wrapping "ListFiles" (st.list_files f1.id)
    both "ListFiles(f1), want 2"
        (λ (f : File). fatal_if (not (f.folder_id ==ℤ f1.id)) "ListFiles(f1) leaked file") got

  unfoldable pub test_get_file_not_found : Action D (Unit {0})
  unfolding is_not_found
  test_get_file_not_found = expect_missing "GetFile(missing)" (st.get_file (pos 987654))

  unfoldable pub test_create_and_get_manifest : Action D (Unit {0})
  test_create_and_get_manifest = do
    created ← wrapping "CreateManifest" (
        st.create_manifest
          (manifest_of (pos 9000000000) (pos 3) (pos 500 ∷ pos 501 ∷ pos 502 ∷ [])))
    fatal_if (created.id ==ℤ pos 0) "CreateManifest must assign a non-zero ID"
    fatal_if (is_zero created.created_at) "CreateManifest must populate CreatedAt"
    got ← wrapping "GetManifest" (st.get_manifest created.id)
    fatal_if (not (got.total_size ==ℤ pos 9000000000) || not (got.chunk_count ==ℤ pos 3))
        "GetManifest returned"
    same_ids got.chunk_message_ids (pos 500 ∷ pos 501 ∷ pos 502 ∷ [])

  unfoldable pub test_get_manifest_not_found : Action D (Unit {0})
  unfolding is_not_found
  test_get_manifest_not_found = expect_missing "GetManifest(missing)" (st.get_manifest (pos 424242))

  unfoldable pub test_upsert_file_preserves_manifest_id : Action D (Unit {0})
  test_upsert_file_preserves_manifest_id = do
    folder ← wrapping "CreateFolder" (st.create_folder (folder_of (pos 1) (pos 10) "F"))
    manifest ←
        wrapping "CreateManifest"
          (st.create_manifest (manifest_of (pos 4000000000) (pos 2) (pos 9 ∷ pos 10 ∷ [])))
    created ← wrapping "UpsertFile" (
        st.upsert_file (
          chunked_file folder.id (pos 700) "big.bin" (pos 4000000000) "application/octet-stream"
            manifest.id))
    fatal_if (not (created.chunk_manifest_id ==ℤ manifest.id)) "UpsertFile returned ChunkManifestID"
    got ← wrapping "GetFile" (st.get_file created.id)
    fatal_if (not (got.chunk_manifest_id ==ℤ manifest.id)) "GetFile returned ChunkManifestID"
    plain ←
        wrapping "UpsertFile(plain)"
          (st.upsert_file (file_of folder.id (pos 701) "small.txt" (pos 5) "text/plain"))
    fatal_if (not (plain.chunk_manifest_id ==ℤ pos 0)) "plain file ChunkManifestID"
    got_plain ← wrapping "GetFile(plain)" (st.get_file plain.id)
    fatal_if (not (got_plain.chunk_manifest_id ==ℤ pos 0)) "GetFile(plain) ChunkManifestID"

  unfoldable pub test_delete_file : Action D (Unit {0})
  unfolding is_not_found
  test_delete_file = do
    folder ← wrapping "CreateFolder" (st.create_folder (folder_of (pos 1) (pos 10) "F"))
    created ←
        wrapping "UpsertFile" (
          st.upsert_file (file_of folder.id (pos 42) "gone.bin" (pos 9) "application/octet-stream"))
    wrapping "DeleteFile" (st.delete_file created.id)
    expect_missing "GetFile after delete" (st.get_file created.id)
    expect_missing "DeleteFile(missing)" (st.delete_file created.id)

  -- Contract, with the outcome of each test; `fresh` is what newStore makes.
  unfoldable pub contract : (fresh : D) → List (Result (Unit {0}))
  unfolding test_ping test_create_and_get_folder test_get_folder_not_found
      test_create_folder_is_idempotent test_list_folders_filters_by_account test_upsert_and_get_file
      test_upsert_file_is_idempotent test_list_files_filters_by_folder test_get_file_not_found
      test_create_and_get_manifest test_get_manifest_not_found
      test_upsert_file_preserves_manifest_id test_delete_file
  contract fresh =
      map (λ (test : Action D (Unit {0})). (test fresh).0)
        (test_ping ∷ test_create_and_get_folder ∷ test_get_folder_not_found
          ∷ test_create_folder_is_idempotent ∷ test_list_folders_filters_by_account
          ∷ test_upsert_and_get_file ∷ test_upsert_file_is_idempotent
          ∷ test_list_files_filters_by_folder ∷ test_get_file_not_found
          ∷ test_create_and_get_manifest ∷ test_get_manifest_not_found
          ∷ test_upsert_file_preserves_manifest_id ∷ test_delete_file ∷ [])
