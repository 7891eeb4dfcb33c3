-- ===== src/Crypto/Laws.antt =====
-- internal/crypto/crypto.go: Encrypt and Decrypt.
use proton_carddav_sync.Base.{
  ◌≡◌, refl, ℕ, true, false, some, ◌++◌, length, length-append, take-append, drop-append, ltb,
  arith, Bool-cases, inl, inr,
}
use proton_carddav_sync.Base.Result.{Result, ok, err}
use proton_carddav_sync.Crypto.{Bytes, Ciphers, nonce_size, encrypt, decrypt}

-- Opening what was sealed, with the same key and nonce, gives the plaintext.
pub record Opens (c : Ciphers) : Type 0 where
  pub unseal-seal :
      (key nonce plaintext : Bytes)
      → c.unseal key nonce (c.seal key nonce plaintext) ≡ some plaintext

-- A reader that gives as many bytes as it is asked for, where it gives any.
pub record Reads (random : ℕ → Result Bytes) : Type 0 where
  pub length-random : (n : ℕ) (bytes : Bytes) → random n ≡ ok bytes → length bytes ≡ n

not_short :
    (nonce rest : Bytes)
    → length nonce ≡ nonce_size
    → ltb (length (nonce ++ rest)) nonce_size ≡ false
not_short nonce rest h = ground (arith, length-append nonce rest)

module _ (c : Ciphers) (opens : Opens c) (random : ℕ → Result Bytes) (reads : Reads random) where
  decrypt-sealed :
      (key plaintext nonce : Bytes)
      → c.valid_key key ≡ true
      → length nonce ≡ nonce_size
      → decrypt c key (nonce ++ c.seal key nonce plaintext) ≡ ok plaintext
  unfolding decrypt
  decrypt-sealed key plaintext nonce valid h =
      rw
        (
          valid,
          not_short nonce (c.seal key nonce plaintext) h,
          take-append nonce_size nonce (c.seal key nonce plaintext) h,
          drop-append nonce_size nonce (c.seal key nonce plaintext) h,
          opens.unseal-seal key nonce plaintext,
        )
        refl

  decrypt-drawn :
      (key plaintext ciphertext : Bytes) (drawn : Result Bytes)
      → c.valid_key key ≡ true
      → random nonce_size ≡ drawn
      → encrypt c random key plaintext ≡ ok ciphertext
      → decrypt c key ciphertext ≡ ok plaintext
  unfolding encrypt
  decrypt-drawn key plaintext ciphertext (ok nonce) valid e h = cc (
    rw (valid, e) at h,
    decrypt-sealed key plaintext nonce valid (reads.length-random nonce_size nonce e),
  )
  decrypt-drawn key plaintext ciphertext (err x) valid e h = cc (rw (valid, e) at h)

  -- What `Encrypt` returned, `Decrypt` takes back to the plaintext under the same key, where opening
  -- undoes sealing and the random reader gives as many bytes as it is asked for, if any.
  pub decrypt-encrypt :
      (key plaintext ciphertext : Bytes)
      → encrypt c random key plaintext ≡ ok ciphertext
      → decrypt c key ciphertext ≡ ok plaintext
  unfolding encrypt
  decrypt-encrypt key plaintext ciphertext h = elim (Bool-cases (c.valid_key key)) [
    | inl valid ↦ decrypt-drawn key plaintext ciphertext (random nonce_size) valid refl h
    | inr invalid ↦ cc (rw invalid at h)
  ]
