-- ===== src/Session.antt =====
-- internal/telegram/session/session.go: the sealed session file, over a disk whose calls may fail.
mod Calls
pub mod Atomic
pub mod Saved
mod Tests
use telecollection.Prelude.{
  ℕ, ◌==◌, Bytes, Bool, true, false, ◌&&◌, Option, none, some, List, [], ◌∷◌, ◌++◌, take, Result,
  ok, err, panicked, Error, new, Action, wrapping, raise, pure, ◌>>=◌, ◌>>◌, if◌then◌else◌, String,
}
use telecollection.Crypto.{Ciphers, encrypt, decrypt}

abbrev pub file_perm : ℕ
file_perm = 384

pub record Entry : Type 0 where
  pub content : Bytes
  pub mode : ℕ

-- The files of a disk, by their paths.
abbrev pub Files : Type 0
Files = Bytes → Option Entry

-- A call that fails, and how many bytes a failed write got out.
pub record Fault : Type 0 where
  pub error : Error
  pub written : ℕ

-- The disk, the outcomes of the calls to come (none at the end of the list: they succeed), and the
-- files after each call so far, which is what a crash there leaves.
pub record Disk : Type 0 where
  pub files : Files
  pub faults : List (Option Fault)
  pub history : List Files

unfoldable pub is_path : Bytes → Bytes → Bool
is_path [] [] = true
is_path [] (d ∷ q) = false
is_path (c ∷ p) [] = false
is_path (c ∷ p) (d ∷ q) = (c == d) && is_path p q

-- One file in place of another, or none.
unfoldable pub put : Bytes → Option Entry → Files → Files
unfolding is_path
put path e files p = if is_path path p then e else files p

abbrev pub next_fault : List (Option Fault) → Option Fault
next_fault [] = none
next_fault (f ∷ fs) = f

abbrev pub later : List (Option Fault) → List (Option Fault)
later [] = []
later (f ∷ fs) = fs

abbrev pub left_by : Disk → Files → Disk
left_by d files = record { files = files; faults = later d.faults; history = files ∷ d.history }

-- A system call: what it does to the files if it succeeds, and if it fails.
abbrev pub outcome :
    {A : Type 0} → Option Fault → (A × Files) → (Fault → Files) → Disk → Result A × Disk
outcome none (a, files) failed d = (ok a, left_by d files)
outcome (some f) (a, files) failed d = (err f.error, left_by d (failed f))

unfoldable pub system_call :
    {A : Type 0} → (Files → A × Files) → (Files → Fault → Files) → Action Disk A
system_call succeeds fails d = outcome (next_fault d.faults) (succeeds d.files) (fails d.files) d

abbrev pub unchanged : Files → Fault → Files
unchanged files f = files

abbrev with_mode : ℕ → Option Entry → Option Entry
with_mode mode none = none
with_mode mode (some e) = some (record e { mode = mode })

abbrev extended : Bytes → Option Entry → Option Entry
extended p none = none
extended p (some e) = some (record e { content = e.content ++ p })

-- For files that exist: os.Chmod and (*os.File).Chmod, Write, Sync and Close, os.Rename and os.Remove; an open file is
-- named by its path.
abbrev pub chmod : Bytes → ℕ → Action Disk (Unit {0})
unfolding system_call put
chmod path mode =
    system_call (λ files. (tt, put path (with_mode mode (files path)) files)) unchanged

abbrev pub write : Bytes → Bytes → Action Disk (Unit {0})
unfolding system_call put
write path p =
    system_call (λ files. (tt, put path (extended p (files path)) files))
      (λ files f. put path (extended (take f.written p) (files path)) files)

abbrev pub flush : Action Disk (Unit {0})
unfolding system_call
flush = system_call (λ files. (tt, files)) unchanged

abbrev pub rename : (from to : Bytes) → Action Disk (Unit {0})
unfolding system_call put
rename from to = system_call (λ files. (tt, put from none (put to (files from) files))) unchanged

abbrev pub remove : Bytes → Action Disk (Unit {0})
unfolding system_call put
remove path = system_call (λ files. (tt, put path none files)) unchanged

-- os.CreateTemp in the directory of a path: `temp_name` is the name it takes, with the mode 0600.
abbrev pub create_temp : (temp_name : Files → Bytes) → Action Disk Bytes
unfolding system_call put
create_temp temp_name =
    system_call
      (λ files. (
        temp_name files,
        put (temp_name files) (some (record { content = []; mode = file_perm })) files,
      ))
      unchanged

-- A disk beside the source of randomness.
abbrev pub on_disk : {G A : Type 0} → Action Disk A → Action (Disk × G) A
on_disk m (d, g) = let (r, d') = m d in (r, (d', g))

abbrev pub on_random : {G A : Type 0} → Action G A → Action (Disk × G) A
on_random m (d, g) = let (r, g') = m g in (r, (d, g'))

-- `defer`: the call behind a body, whose result is dropped.
abbrev pub deferred : {S A B : Type 0} → Action S B → Action S A → Action S A
deferred last m s = let (r, s') = m s in (r, (last s').1)

-- `if err := m(); err != nil { _ = last(); return fmt.Errorf("msg: %w", err) }`
abbrev undo : {S A B : Type 0} → Action S B → Result A → S → Result A × S
undo last (ok a) s = (ok a, s)
undo last (err e) s = (err e, (last s).1)
undo last panicked s = (panicked, s)

abbrev pub or_else_do : {S A B : Type 0} → Action S B → Action S A → Action S A
or_else_do last m s = let (r, s') = m s in undo last r s'

-- The error of a read: os.ErrNotExist or another.
abbrev pub err_not_found : Error
err_not_found = new "session not found"

module _ (temp_name : Files → Bytes) (path : Bytes) where
  -- StoreSession behind the creation of the temporary file.
  abbrev pub replace_by : Bytes → Bytes → Action Disk (Unit {0})
  unfolding chmod write flush rename
  replace_by tmp blob = do
    wrapping "session: setting permissions" (or_else_do flush (chmod tmp file_perm))
    wrapping "session: writing temp file" (or_else_do flush (write tmp blob))
    wrapping "session: syncing temp file" (or_else_do flush flush)
    wrapping "session: closing temp file" flush
    wrapping "session: renaming temp file into place" (rename tmp path)
    wrapping "session: enforcing final permissions" (chmod path file_perm)

  abbrev pub write_blob : Bytes → Action Disk (Unit {0})
  unfolding create_temp remove replace_by
  write_blob blob = do
    tmp ← wrapping "session: creating temp file" (create_temp temp_name)
    deferred (remove tmp) (replace_by tmp blob)

module _ {K G : Type 0} (ciphers : Ciphers K) (read_random : ℕ → Action G Bytes)
    (temp_name : Files → Bytes) (path key : Bytes) where
  -- StoreSession
  unfoldable pub store_session : Bytes → Action (Disk × G) (Unit {0})
  unfolding encrypt write_blob
  store_session text = do
    blob ← wrapping "session: encrypting" (on_random (encrypt ciphers read_random key text))
    on_disk (write_blob temp_name path blob)

module _ {K : Type 0} (ciphers : Ciphers K) (path key : Bytes) where
  abbrev read_entry : Option Fault → Option Entry → Action Disk Bytes
  read_entry (some f) e = wrapping "session: reading" (raise f.error)
  read_entry none none = raise err_not_found
  read_entry none (some e) = pure e.content

  -- LoadSession
  unfoldable pub load_session : Action Disk Bytes
  unfolding decrypt
  load_session = do
    blob ← λ d. read_entry (next_fault d.faults) (d.files path) (left_by d d.files)
    wrapping "session: decrypting" (decrypt ciphers key blob)
