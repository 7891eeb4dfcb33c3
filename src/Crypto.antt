-- ===== src/Crypto.antt =====
-- internal/crypto/crypto.go: encryption of the stored credentials. Bytes are numbers, and a Go string
-- that is encrypted is its bytes.
pub mod Laws
pub mod RandomKey
use proton_carddav_sync.Base.{
  ℕ, ◌+◌, String, Bool, true, false, not, Option, none, some, List, [], ◌∷◌, ◌++◌, length, take,
  drop, ltb, if◌then◌else◌,
}
use proton_carddav_sync.Base.Result.{Error, failure, wrap, Result, ok, err, ◌>>=◌, map_err}

abbrev pub Bytes : Type 0
Bytes = List ℕ

-- AES-GCM of crypto/cipher, without additional data, and PBKDF2 with SHA-256 of golang.org/x/crypto.
pub record Ciphers : Type 0 where
  -- `aes.NewCipher` takes the key
  pub valid_key : Bytes → Bool
  -- a key, a nonce and a plaintext, to the ciphertext with its tag
  pub seal : Bytes → Bytes → Bytes → Bytes
  -- a key, a nonce and a ciphertext, to the plaintext where the tag is right
  pub unseal : Bytes → Bytes → Bytes → Option Bytes
  -- a password, a salt, a count of iterations and a length, to a key
  pub pbkdf2 : Bytes → Bytes → ℕ → ℕ → Bytes

abbrev pub key_len : ℕ
key_len = 32

abbrev pub salt_len : ℕ
salt_len = 32

abbrev pub pbkdf2_iter : ℕ
pbkdf2_iter = 200_000

-- `gcm.NonceSize()`
abbrev pub nonce_size : ℕ
nonce_size = 12

-- `ErrCiphertextTooShort`
abbrev pub ciphertext_too_short : Error
ciphertext_too_short = failure "ciphertext too short"

abbrev opened : Option Bytes → Result Bytes
opened none = err (wrap "decrypt" (failure "cipher: message authentication failed"))
opened (some plaintext) = ok plaintext

module _ (c : Ciphers) where
  -- `aes.NewCipher(key)`
  abbrev pub new_cipher : Bytes → Result Bytes
  new_cipher key =
      if c.valid_key key then ok key else err (wrap "create cipher" (failure "invalid key size"))

  -- `DeriveKeyWithSalt`
  unfoldable pub derive_key_with_salt : Bytes → Bytes → Bytes
  derive_key_with_salt password salt = c.pbkdf2 password salt pbkdf2_iter key_len

  -- What the random reader gives next, for a number of bytes.
  module _ (random : ℕ → Result Bytes) where
    -- `DeriveKey`: the key and the salt
    unfoldable pub derive_key : Bytes → Result (Bytes × Bytes)
    derive_key password = do
      salt ← map_err (wrap "generate salt") (random salt_len)
      ok (derive_key_with_salt password salt, salt)

    -- `Encrypt`: the nonce, and the ciphertext after it
    unfoldable pub encrypt : Bytes → Bytes → Result Bytes
    encrypt key plaintext = do
      k ← new_cipher key
      nonce ← map_err (wrap "generate nonce") (random nonce_size)
      ok (nonce ++ c.seal k nonce plaintext)

  -- `Decrypt`
  unfoldable pub decrypt : Bytes → Bytes → Result Bytes
  decrypt key ciphertext = do
    k ← new_cipher key
    if ltb (length ciphertext) nonce_size
        then err ciphertext_too_short
        else opened (c.unseal k (take nonce_size ciphertext) (drop nonce_size ciphertext))
