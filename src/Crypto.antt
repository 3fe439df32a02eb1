-- ===== src/Crypto.antt =====
-- internal/crypto/crypto.go: sealing with AES-GCM, over the ciphers and the randomness of Go's library.
pub mod Sealing
pub mod Toy
mod Tests
use telecollection.Prelude.{
  ℕ, Bytes, ltb, length, take, drop, ◌++◌, Result, ok, err, Error, new, Action, raise, pure, lift,
  wrapping, refuse_if, ◌>>=◌, ◌>>◌,
}

abbrev salt_len : ℕ
salt_len = 16

abbrev pub key_len : ℕ
key_len = 32

abbrev argon_time : ℕ
argon_time = 1

abbrev argon_memory : ℕ
argon_memory = 65536

abbrev argon_threads : ℕ
argon_threads = 4

-- cipher.AEAD, with no additional data.
pub record Aead : Type 0 where
  pub nonce_size : ℕ
  pub seal : (nonce plaintext : Bytes) → Bytes
  pub open_box : (nonce ciphertext : Bytes) → Result Bytes

-- crypto/aes, crypto/cipher and argon2; `K` is a cipher.Block.
pub record Ciphers (K : Type 0) : Type 0 where
  pub new_cipher : Bytes → Result K
  pub block_gcm : K → Result Aead
  pub id_key : (password salt : Bytes) (time memory threads key_len : ℕ) → Bytes

abbrev pub err_short_blob : Error
err_short_blob = new "crypto: blob too short"

module _ {S : Type 0} (read_random : ℕ → Action S Bytes) where
  -- NewSalt; `read_random n` fills a buffer of n bytes.
  unfoldable pub new_salt : Action S Bytes
  new_salt = wrapping "crypto: generating salt" (read_random salt_len)

module _ {K : Type 0} (ciphers : Ciphers K) where
  -- DeriveKey
  unfoldable pub derive_key : (passphrase salt : Bytes) → Bytes
  derive_key passphrase salt =
      ciphers.id_key passphrase salt argon_time argon_memory argon_threads key_len

  -- newGCM
  unfoldable pub new_gcm : {S : Type 0} → Bytes → Action S Aead
  new_gcm key = do
    block ← wrapping "crypto: creating AES cipher" (lift (ciphers.new_cipher key))
    wrapping "crypto: creating GCM" (lift (ciphers.block_gcm block))

  -- Encrypt: the nonce, and the box behind it.
  unfoldable pub encrypt :
      {S : Type 0} → (ℕ → Action S Bytes) → (key plaintext : Bytes) → Action S Bytes
  unfolding new_gcm
  encrypt read_random key plaintext = do
    gcm ← new_gcm key
    nonce ← wrapping "crypto: generating nonce" (read_random gcm.nonce_size)
    pure (nonce ++ gcm.seal nonce plaintext)

  -- Decrypt
  unfoldable pub decrypt : {S : Type 0} → (key blob : Bytes) → Action S Bytes
  unfolding new_gcm
  decrypt key blob = do
    gcm ← new_gcm key
    refuse_if (ltb (length blob) gcm.nonce_size) err_short_blob
    wrapping "crypto: decrypting"
        (lift (gcm.open_box (take gcm.nonce_size blob) (drop gcm.nonce_size blob)))
