-- ===== src/Crypto.antt =====
-- internal/crypto: keys.go, aes.go and rotate.go. The ciphers, key derivation and base64 of the Go
-- libraries are an interface; bytes are numbers, and the random nonce is an input of an encryption.
pub mod Library
pub mod Rotation
pub mod Tests
use regent_backend.Base.{
  ℕ, Bool, true, false, Option, none, some, List, [], ◌∷◌, ◌||◌, ◌==◌, if◌then◌else◌, length, codes,
}
use Library.{Primitives, Bytes, nonce_size}

pub data Outcome (A : Type 0) : Type 0 where
  ok : A → Outcome A
  failed : Outcome A
  -- `Seal` and `Open` panic at a nonce of another length than `NonceSize`.
  panicked : Outcome A

pub record Sealed : Type 0 where
  pub ciphertext : Bytes
  pub nonce : Bytes

pub record Encryptor : Type 0 where
  pub master_key : Bytes

pub record RotatingEncryptor : Type 0 where
  pub current : Encryptor
  -- `none` where no rotation is in progress.
  pub previous : Option Encryptor

module _ (prims : Primitives) where
  open prims use {decode_base64, hkdf, seal, unseal}

  unfoldable pub with_master : Option Bytes → Outcome Encryptor
  with_master none = failed
  with_master (some key) = if length key == 32 then ok (record { master_key = key }) else failed

  unfoldable pub new_encryptor : Bytes → Outcome Encryptor
  unfolding with_master
  new_encryptor text = with_master (decode_base64 text)

  unfoldable pub derive_key_for_purpose : Encryptor → (tenant purpose : Bytes) → Option Bytes
  derive_key_for_purpose e tenant purpose = hkdf e.master_key tenant purpose

  -- The purpose of `DeriveKey`.
  unfoldable pub derive_key : Encryptor → (tenant : Bytes) → Option Bytes
  unfolding derive_key_for_purpose
  derive_key e tenant = derive_key_for_purpose e tenant (codes "regent-oauth-tokens")

  -- `aes.NewCipher` takes these lengths.
  unfoldable pub is_key : Bytes → Bool
  is_key key = length key == 16 || length key == 24 || length key == 32

  -- With the key and what is read from `rand.Reader`, none on an error.
  unfoldable pub seal_with : Option Bytes → Option Bytes → (plaintext : Bytes) → Outcome Sealed
  unfolding is_key
  seal_with none random plaintext = failed
  seal_with (some key) none plaintext = failed
  seal_with (some key) (some random) plaintext =
      if is_key key
      then ok (record { ciphertext = seal key random plaintext; nonce = random })
      else failed

  unfoldable pub opened : Option Bytes → Outcome Bytes
  opened none = failed
  opened (some plaintext) = ok plaintext

  unfoldable pub unseal_with : Option Bytes → Sealed → Outcome Bytes
  unfolding is_key opened
  unseal_with none s = failed
  unseal_with (some key) s =
      if is_key key
      then (if length s.nonce == nonce_size
          then opened (unseal key s.nonce s.ciphertext)
          else panicked)
      else failed

  unfoldable pub encrypt_for_purpose :
      Encryptor
      → (tenant purpose : Bytes) (random : Option Bytes) (plaintext : Bytes) → Outcome Sealed
  unfolding seal_with derive_key_for_purpose
  encrypt_for_purpose e tenant purpose random plaintext =
      seal_with (derive_key_for_purpose e tenant purpose) random plaintext

  unfoldable pub decrypt_for_purpose : Encryptor → (tenant purpose : Bytes) → Sealed → Outcome Bytes
  unfolding unseal_with derive_key_for_purpose
  decrypt_for_purpose e tenant purpose s = unseal_with (derive_key_for_purpose e tenant purpose) s

  unfoldable pub encrypt :
      Encryptor → (tenant : Bytes) (random : Option Bytes) (plaintext : Bytes) → Outcome Sealed
  unfolding seal_with derive_key
  encrypt e tenant random plaintext = seal_with (derive_key e tenant) random plaintext

  unfoldable pub decrypt : Encryptor → (tenant : Bytes) → Sealed → Outcome Bytes
  unfolding unseal_with derive_key
  decrypt e tenant s = unseal_with (derive_key e tenant) s

  unfoldable pub with_previous : Encryptor → Outcome Encryptor → Outcome RotatingEncryptor
  with_previous c failed = failed
  with_previous c panicked = panicked
  with_previous c (ok p) = ok (record { current = c; previous = some p })

  unfoldable pub with_current :
      Outcome Encryptor → (previous_key : Bytes) → Outcome RotatingEncryptor
  unfolding with_previous new_encryptor
  with_current failed previous_key = failed
  with_current panicked previous_key = panicked
  with_current (ok c) [] = ok (record { current = c; previous = none })
  with_current (ok c) (b ∷ bs) = with_previous c (new_encryptor (b ∷ bs))

  unfoldable pub new_rotating_encryptor :
      (current_key previous_key : Bytes) → Outcome RotatingEncryptor
  unfolding with_current new_encryptor
  new_rotating_encryptor current_key previous_key =
      with_current (new_encryptor current_key) previous_key

  unfoldable pub rotating_encrypt :
      RotatingEncryptor
      → (tenant purpose : Bytes) (random : Option Bytes) (plaintext : Bytes) → Outcome Sealed
  unfolding encrypt_for_purpose
  rotating_encrypt re tenant purpose random plaintext =
      encrypt_for_purpose re.current tenant purpose random plaintext

  -- What is tried after the current key failed.
  unfoldable pub by_previous : Option Encryptor → (tenant purpose : Bytes) → Sealed → Outcome Bytes
  unfolding decrypt_for_purpose
  by_previous none tenant purpose s = failed
  by_previous (some p) tenant purpose s = decrypt_for_purpose p tenant purpose s

  unfoldable pub or_previous :
      Outcome Bytes → Option Encryptor → (tenant purpose : Bytes) → Sealed → Outcome Bytes
  unfolding by_previous
  or_previous (ok plaintext) previous tenant purpose s = ok plaintext
  or_previous panicked previous tenant purpose s = panicked
  or_previous failed previous tenant purpose s = by_previous previous tenant purpose s

  unfoldable pub rotating_decrypt :
      RotatingEncryptor → (tenant purpose : Bytes) → Sealed → Outcome Bytes
  unfolding or_previous decrypt_for_purpose
  rotating_decrypt re tenant purpose s =
      or_previous (decrypt_for_purpose re.current tenant purpose s) re.previous tenant purpose s
