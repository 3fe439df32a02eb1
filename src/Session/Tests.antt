-- ===== src/Session/Tests.antt =====
-- A session that replaces an old one, with and without a failing disk.
use telecollection.Prelude.{◌≡◌, refl, Bytes, codes, false, none, some, [], ◌∷◌, ok, err, new, wrap}
use telecollection.Crypto.Toy.{tagging, ciphers, next_two, key}
use telecollection.Session.{Entry, Files, Fault, Disk, is_path, put, store_session, load_session}
use telecollection.Session.Saved.{Replaces, store_session-Replaces, load_session-store_session}

abbrev path : Bytes
path = codes "s.bin"

abbrev temp : Files → Bytes
temp files = codes ".session-1.tmp"

temp_other : (files : Files) → is_path (temp files) path ≡ false
unfolding is_path
temp_other files = refl

abbrev old : Entry
old = record { content = codes "old"; mode = 420 }

abbrev only_old : Files
unfolding put
only_old p = put path (some old) (λ q. none) p

-- The third call, the write, fails after one byte.
abbrev full : Fault
full = record { error = new "no space left on device"; written = 1 }

abbrev calm : Disk
calm = record { files = only_old; faults = []; history = [] }

abbrev failing : Disk
failing = record { files = only_old; faults = none ∷ none ∷ some full ∷ []; history = [] }

failed_run :
    (store_session ciphers next_two temp path key (codes "new") (failing, 5)).0
    ≡ err (wrap "session: writing temp file" (new "no space left on device"))
unfolding store_session only_old
failed_run = refl

failed_session :
    (store_session ciphers next_two temp path key (codes "new") (failing, 5)).1.0.files path
    ≡ some old
unfolding store_session only_old
failed_session = refl

no_temp_left :
    (store_session ciphers next_two temp path key (codes "new") (failing, 5)).1.0.files
      (temp only_old)
    ≡ none
unfolding store_session only_old
no_temp_left = refl

store_session-Replaces_example :
    Replaces ciphers next_two temp path key
      (codes "new")
      failing
      5
      (store_session ciphers next_two temp path key (codes "new") (failing, 5))
store_session-Replaces_example =
    store_session-Replaces ciphers next_two temp path key (codes "new") failing 5 temp_other refl

load_session-store_session_example :
    (load_session ciphers path key
      (store_session ciphers next_two temp path key (codes "new") (calm, 5)).1.0).0
    ≡ ok (codes "new")
unfolding store_session only_old
load_session-store_session_example =
    load_session-store_session ciphers next_two temp path key (codes "new") calm
      (store_session ciphers next_two temp path key (codes "new") (calm, 5)).1.0 5 7 7 tagging
      (5 ∷ 6 ∷ []) temp_other refl (key, refl, refl) (λ nonce text. refl) refl refl refl refl
