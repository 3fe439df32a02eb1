-- ===== src/Crypto/Toy.antt =====
-- A toy cipher for tests: a box is a tag and the text.
use telecollection.Prelude.{
  ℕ, suc, ◌+◌, ◌==◌, Bytes, codes, [], ◌∷◌, if◌then◌else◌, length, Result, ok, err, new, Action,
}
use telecollection.Crypto.{Aead, Ciphers, key_len}

abbrev open_tagged : Bytes → Result Bytes
open_tagged [] = err (new "cipher: message authentication failed")
open_tagged (tag ∷ text) =
    if tag == 9 then ok text else err (new "cipher: message authentication failed")

abbrev pub tagging : Aead
tagging = record {
  nonce_size = 2;
  seal = λ nonce text. 9 ∷ text;
  open_box = λ nonce box. open_tagged box;
}

abbrev pub ciphers : Ciphers Bytes
ciphers = record {
  new_cipher =
      λ key. if length key == key_len then ok key else err (new "crypto/aes: invalid key size");
  block_gcm = λ block. ok tagging;
  id_key = λ password salt time memory threads n. password;
}

-- Two bytes from a counter.
abbrev pub next_two : ℕ → Action ℕ Bytes
next_two n s = (ok (s ∷ suc s ∷ []), s + 2)

abbrev pub key : Bytes
key = codes "0123456789abcdef0123456789abcdef"
