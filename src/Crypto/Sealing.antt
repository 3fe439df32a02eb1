-- ===== src/Crypto/Sealing.antt =====
-- What is sealed is opened.
use telecollection.Prelude.{
  ℕ, ◌≡◌, refl, sym, ap, arith, Bytes, length, take, drop, [], ◌∷◌, ◌++◌, ltb, false, ok, Action,
}
use telecollection.Crypto.{Aead, Ciphers, encrypt, decrypt}

-- The AEAD that a key gives.
abbrev pub Gives : {K : Type 0} → Ciphers K → Bytes → Aead → Type 0
Gives {K} ciphers key gcm =
    (block : K) × (ciphers.new_cipher key ≡ ok block) × (ciphers.block_gcm block ≡ ok gcm)

-- The documented behaviour of an AEAD: Open undoes Seal under the same nonce.
abbrev pub Opens : Aead → Type 0
Opens gcm = (nonce plaintext : Bytes) → gcm.open_box nonce (gcm.seal nonce plaintext) ≡ ok plaintext

pub take-append : (s t : Bytes) → take (length s) (s ++ t) ≡ s
take-append [] t = refl
take-append (c ∷ s) t = ap (λ r. c ∷ r) (take-append s t)

pub drop-append : (s t : Bytes) → drop (length s) (s ++ t) ≡ t
drop-append [] t = refl
drop-append (c ∷ s) t = drop-append s t

long_enough : (s t : Bytes) → ltb (length (s ++ t)) (length s) ≡ false
long_enough [] t = ground arith
long_enough (c ∷ s) t = ground (arith, long_enough s t)

module _ {K S T : Type 0} (ciphers : Ciphers K) (read_random : ℕ → Action S Bytes) where
  -- With a key that the cipher takes, and randomness that fills the nonce, Encrypt returns a blob and
  -- Decrypt of that blob under the same key returns the plaintext, if Open undoes Seal.
  pub decrypt-encrypt :
      (key plaintext nonce : Bytes) (gcm : Aead) (s s' : S) (t : T)
      → Gives ciphers key gcm
      → Opens gcm
      → read_random gcm.nonce_size s ≡ (ok nonce, s')
      → length nonce ≡ gcm.nonce_size
      → (blob : Bytes) × (encrypt ciphers read_random key plaintext s ≡ (ok blob, s'))
        × (decrypt ciphers key blob t ≡ (ok plaintext, t))
  unfolding encrypt decrypt
  decrypt-encrypt key plaintext nonce gcm s s' t (block, c, g) opens drawn size = (
    nonce ++ gcm.seal nonce plaintext,
    rw (c, g, drawn) refl,
    rw (c, g, sym size)
        (rw
          (
            long_enough nonce (gcm.seal nonce plaintext),
            take-append nonce (gcm.seal nonce plaintext),
            drop-append nonce (gcm.seal nonce plaintext),
            opens nonce plaintext,
          )
          refl),
  )
