-- ===== src/Crypto/Rotation.antt =====
-- What is encrypted can be decrypted, also after the key has been rotated.
use regent_backend.Base.{
  ℕ, ◌≡◌, refl, sym, ap, ◌∙◌, subst, Option, none, some, [], ◌∷◌, arith, length,
}
use regent_backend.Crypto.Library.{Primitives, Bytes, nonce_size}
use regent_backend.Crypto.{
  Outcome, ok, failed, panicked, Sealed, Encryptor, RotatingEncryptor, seal_with, opened,
  unseal_with, derive_key_for_purpose, encrypt_for_purpose, decrypt_for_purpose, new_encryptor,
  with_previous, with_current, new_rotating_encryptor, rotating_encrypt, by_previous, or_previous,
  rotating_decrypt,
}

module _ (prims : Primitives) where
  open prims use {hkdf, seal, unseal, length-hkdf, unseal-seal}

  unseal_with-seal_with :
      (key : Option Bytes) (nonce plaintext : Bytes) (s : Sealed)
      → length nonce ≡ nonce_size
      → seal_with prims key (some nonce) plaintext ≡ ok s
      → unseal_with prims key s ≡ ok plaintext
  unfolding seal_with unseal_with opened
  unseal_with-seal_with none nonce plaintext s h e = ground (arith, e)
  unseal_with-seal_with (some key) nonce plaintext s h e =
      ground (arith, h, e, unseal-seal key nonce plaintext h)

  -- What an encryptor seals, for a tenant and a purpose, with a nonce of the right length, the same
  -- opens.
  decrypt_for_purpose-encrypt_for_purpose :
      (e : Encryptor) (tenant purpose nonce plaintext : Bytes) (s : Sealed)
      → length nonce ≡ nonce_size
      → encrypt_for_purpose prims e tenant purpose (some nonce) plaintext ≡ ok s
      → decrypt_for_purpose prims e tenant purpose s ≡ ok plaintext
  unfolding decrypt_for_purpose encrypt_for_purpose
  decrypt_for_purpose-encrypt_for_purpose e tenant purpose nonce plaintext s h sealed =
      unseal_with-seal_with (derive_key_for_purpose prims e tenant purpose) nonce plaintext s h
        sealed

  new_rotating-current :
      (key previous : Bytes) (re : RotatingEncryptor)
      → new_rotating_encryptor prims key previous ≡ ok re
      → new_encryptor prims key ≡ ok re.current
  unfolding new_rotating_encryptor with_current with_previous
  new_rotating-current key previous re h = current_of (new_encryptor prims key) previous h
    where
      previous_of :
          (c : Encryptor) (p : Outcome Encryptor) → with_previous prims c p ≡ ok re → c ≡ re.current
      previous_of c failed h = ground (arith, h)
      previous_of c panicked h = ground (arith, h)
      previous_of c (ok p) h = ground (arith, h)

      current_of :
          (o : Outcome Encryptor) (previous : Bytes)
          → with_current prims o previous ≡ ok re
          → o ≡ ok re.current
      current_of failed previous h = ground (arith, h)
      current_of panicked previous h = ground (arith, h)
      current_of (ok c) [] h = ground (arith, h)
      current_of (ok c) (b ∷ bs) h = ap ok (previous_of c (new_encryptor prims (b ∷ bs)) h)

  new_rotating-previous :
      (key : Bytes) (b : ℕ) (bs : Bytes) (re : RotatingEncryptor)
      → new_rotating_encryptor prims key (b ∷ bs) ≡ ok re
      → (p : Encryptor) × (new_encryptor prims (b ∷ bs) ≡ ok p) × (re.previous ≡ some p)
  unfolding new_rotating_encryptor with_current with_previous
  new_rotating-previous key b bs re h = current_of (new_encryptor prims key) h
    where
      previous_of :
          (c : Encryptor) (o : Outcome Encryptor)
          → with_previous prims c o ≡ ok re
          → (p : Encryptor) × (o ≡ ok p) × (re.previous ≡ some p)
      previous_of c failed h = absurd (ground (arith, h))
      previous_of c panicked h = absurd (ground (arith, h))
      previous_of c (ok p) h = (p, refl, ground (arith, h))

      current_of :
          (o : Outcome Encryptor)
          → with_current prims o (b ∷ bs) ≡ ok re
          → (p : Encryptor) × (new_encryptor prims (b ∷ bs) ≡ ok p) × (re.previous ≡ some p)
      current_of failed h = absurd (ground (arith, h))
      current_of panicked h = absurd (ground (arith, h))
      current_of (ok c) h = previous_of c (new_encryptor prims (b ∷ bs)) h

  -- What is encrypted under the current key can be decrypted, and after the key has been rotated too,
  -- if the new key does not open it by accident: the old key is tried next.
  pub rotating_decrypt-rotating_encrypt :
      (b : ℕ) (bs older new_key : Bytes) (before after : RotatingEncryptor)
      (tenant purpose random plaintext : Bytes) (s : Sealed)
      → new_rotating_encryptor prims (b ∷ bs) older ≡ ok before
      → new_rotating_encryptor prims new_key (b ∷ bs) ≡ ok after
      → length random ≡ nonce_size
      → rotating_encrypt prims before tenant purpose (some random) plaintext ≡ ok s
      → decrypt_for_purpose prims after.current tenant purpose s ≡ failed
      → (rotating_decrypt prims before tenant purpose s ≡ ok plaintext)
        × (rotating_decrypt prims after tenant purpose s ≡ ok plaintext)
  unfolding rotating_decrypt rotating_encrypt or_previous by_previous
  rotating_decrypt-rotating_encrypt b bs older new_key before after tenant purpose random plaintext
        s made rotated h sealed shut =
      let opened_again =
        decrypt_for_purpose-encrypt_for_purpose before.current tenant purpose random plaintext s h
          sealed in
      let (p, made', previous) = new_rotating-previous new_key b bs after rotated in
      let same = sym (new_rotating-current (b ∷ bs) older before made) ∙ made' in
      let same_encryptor : before.current ≡ p = cc (same) in
      (
        rw opened_again refl,
        rw (shut, previous)
            (subst (λ e. decrypt_for_purpose prims e tenant purpose s ≡ ok plaintext) same_encryptor
              opened_again),
      )
