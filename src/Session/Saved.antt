-- ===== src/Session/Saved.antt =====
-- StoreSession replaces the session as a whole, and LoadSession reads it back.
use mathlib.Core.Path.{subst}
use telecollection.Prelude.{
  ℕ, ◌≡◌, refl, sym, ap, ◌∙◌, Bytes, false, none, ◌⊎◌, inl, inr, [], All, length, Result, ok, err,
  panicked, Error, Action, then_do, wrap_result, ok-injective,
}
use telecollection.Prelude.Triples.{After}
use telecollection.Crypto.{Aead, Ciphers, encrypt, decrypt}
use telecollection.Crypto.Sealing.{Gives, Opens, decrypt-encrypt}
use telecollection.Session.{
  Files, Disk, is_path, next_fault, left_by, write_blob, store_session, load_session, on_disk,
}
use telecollection.Session.Atomic.{sealed, Good, Stored, write_blob-Stored}

module _ {K G : Type 0} (ciphers : Ciphers K) (read_random : ℕ → Action G Bytes)
    (temp_name : Files → Bytes) (path key text : Bytes) where
  -- How StoreSession can end: without a blob and with the disk as it was, or with a blob of the text
  -- and a disk on which the path held the old session or the blob, with mode 0600, after
  -- every call, and holds the blob if there is no error.
  abbrev pub Replaces : Disk → G → Result (Unit {0}) × (Disk × G) → Type 0
  unfolding encrypt
  Replaces d g (r, (d', g')) =
      ((e : Error) × (r ≡ err e) × (d' ≡ d))
      ⊎ ((r ≡ panicked) × (d' ≡ d))
      ⊎ ((blob : Bytes) × (encrypt ciphers read_random key text g ≡ (ok blob, g'))
          × After (λ a. Stored temp_name path blob (d.files path))
              (Good temp_name path blob (d.files path)) (r, d'))

  encrypted-Replaces :
      (q : Result Bytes × G) (d : Disk) (g : G)
      → ((files : Files) → is_path (temp_name files) path ≡ false)
      → d.history ≡ []
      → encrypt ciphers read_random key text g ≡ q
      → Replaces d g (
          then_do
            (wrap_result "session: encrypting" q.0)
            (λ blob. on_disk (write_blob temp_name path blob))
            (d, q.1))
  unfolding write_blob Replaces
  encrypted-Replaces (ok blob, g') d g other new e = inr (
      inr (
        blob,
        e,
        (write_blob-Stored temp_name path blob (d.files path) other).at d
            (refl, subst (All _) (sym new) tt),
      ))
  encrypted-Replaces (err x, g') d g other new e = inl (_, refl, refl)
  encrypted-Replaces (panicked, g') d g other new e = inr (inl (refl, refl))

  -- Whichever calls of the operating system fail, StoreSession ends with an error or a panic before it
  -- touches the disk, or with a sealed blob of the text: then the path has held the old session or
  -- this blob with mode 0600 after every single call, and holds the blob if there is no error. A
  -- temporary file must not be given the path's name.
  pub store_session-Replaces :
      (d : Disk) (g : G)
      → ((files : Files) → is_path (temp_name files) path ≡ false)
      → d.history ≡ []
      → Replaces d g (store_session ciphers read_random temp_name path key text (d, g))
  unfolding store_session
  store_session-Replaces d g other new =
      encrypted-Replaces (encrypt ciphers read_random key text g) d g other new refl

  -- LoadSession of a disk that holds the blob.
  loading :
      (blob : Bytes) (d : Disk)
      → next_fault d.faults ≡ none
      → d.files path ≡ sealed blob
      → (load_session ciphers path key d).0
        ≡ wrap_result "session: decrypting"
            (decrypt ciphers {S = Disk} key blob (left_by d d.files)).0
  unfolding load_session
  loading blob d calm held = rw (calm, held) refl

  -- A StoreSession that returned no error.
  stored :
      (d d' : Disk) (g g' : G)
      → Replaces d g (ok tt, (d', g'))
      → (blob : Bytes) × (encrypt ciphers read_random key text g ≡ (ok blob, g'))
        × (d'.files path ≡ sealed blob)
  unfolding Replaces
  stored d d' g g' (inl (e, h, same)) = cc
  stored d d' g g' (inr (inl (h, same))) = cc
  stored d d' g g' (inr (inr (blob, e, (held, all)))) = (blob, e, held)

  -- After a StoreSession that returns no error, a LoadSession whose read does not fail returns the text,
  -- if the key is one the cipher takes, Open undoes Seal, and the randomness filled the nonce.
  pub load_session-store_session :
      (d d' : Disk) (g g' g'' : G) (gcm : Aead) (nonce : Bytes)
      → ((files : Files) → is_path (temp_name files) path ≡ false)
      → d.history ≡ []
      → Gives ciphers key gcm
      → Opens gcm
      → read_random gcm.nonce_size g ≡ (ok nonce, g'')
      → length nonce ≡ gcm.nonce_size
      → store_session ciphers read_random temp_name path key text (d, g) ≡ (ok tt, (d', g'))
      → next_fault d'.faults ≡ none
      → (load_session ciphers path key d').0 ≡ ok text
  unfolding load_session
  load_session-store_session d d' g g' g'' gcm nonce other new gives opens drawn size eq calm =
      let (blob, e, held) =
        stored d d' g g' (subst (Replaces d g) eq (store_session-Replaces d g other new)) in
      let (blob', e', opened) =
        decrypt-encrypt ciphers read_random key text nonce gcm g g'' (left_by d' d'.files) gives
          opens drawn size in
      let same = ok-injective (ap (λ q. q.0) (sym e ∙ e')) in
      loading blob d' calm held
      ∙ ap
          (λ b.
            wrap_result "session: decrypting"
              (decrypt ciphers {S = Disk} key b (left_by d' d'.files)).0)
          same
      ∙ ap (λ q. wrap_result "session: decrypting" q.0) opened
