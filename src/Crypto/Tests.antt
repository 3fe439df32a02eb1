-- ===== src/Crypto/Tests.antt =====
-- A text that is sealed and opened.
use telecollection.Prelude.{ℕ, ◌≡◌, refl, Bytes, codes, [], ◌∷◌, ok, err}
use telecollection.Crypto.{err_short_blob, encrypt, decrypt}
use telecollection.Crypto.Toy.{tagging, ciphers, next_two, key}
use telecollection.Crypto.Sealing.{decrypt-encrypt}

encrypt_key : encrypt ciphers next_two key (codes "hi") 5 ≡ (ok (5 ∷ 6 ∷ 9 ∷ codes "hi"), 7)
unfolding encrypt
encrypt_key = refl

decrypt_short : decrypt ciphers {S = ℕ} key (5 ∷ []) 7 ≡ (err err_short_blob, 7)
unfolding decrypt
decrypt_short = refl

sealed_text :
    (blob : Bytes) × (encrypt ciphers next_two key (codes "hi") 5 ≡ (ok blob, 7))
    × (decrypt ciphers {S = ℕ} key blob 1 ≡ (ok (codes "hi"), 1))
sealed_text =
    decrypt-encrypt ciphers next_two key (codes "hi") (5 ∷ 6 ∷ []) tagging 5 7 1 (key, refl, refl)
      (λ nonce text. refl) refl refl
