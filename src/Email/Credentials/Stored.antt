-- ===== src/Email/Credentials/Stored.antt =====
-- A credential that is stored is read back, by either reader and under a rotated key.
use regent_backend.Base.{ℕ, ◌≡◌, refl, Bool, true, some, ◌∷◌, arith, length}
use regent_backend.Crypto.Library.{Primitives, Bytes, nonce_size}
use regent_backend.Crypto.{
  Outcome, ok, failed, panicked, Sealed, RotatingEncryptor, decrypt_for_purpose,
  new_rotating_encryptor, rotating_encrypt, rotating_decrypt,
}
use regent_backend.Crypto.Rotation.{rotating_decrypt-rotating_encrypt}
use regent_backend.Email.Credentials.{
  CredentialType, smtp_password, other_type, type_code, purpose_for_type, direct_purpose,
  Credentials, upsert, store_sealed, store_credential, read_sealed, get_credential, read_direct,
  get_credential_direct,
}

direct_purpose-purpose_for_type : (t : CredentialType) → direct_purpose t ≡ purpose_for_type t
unfolding direct_purpose purpose_for_type
direct_purpose-purpose_for_type smtp_password = refl
direct_purpose-purpose_for_type (other_type n) = refl

upsert_self :
    (account : ℕ) (t : CredentialType) (s : Sealed) (table : Credentials)
    → upsert account t s table account (type_code t) ≡ some s
unfolding upsert
upsert_self account t s table = ground arith

store_sealed-stored :
    (prims : Primitives) (re : RotatingEncryptor) (tenant : Bytes) (exec_ok : Bool) (account : ℕ)
    (t : CredentialType) (o : Outcome Sealed) (table : Credentials)
    → (store_sealed prims re tenant exec_ok account t o table).1 ≡ true
    → (s : Sealed) × (o ≡ ok s)
      × ((store_sealed prims re tenant exec_ok account t o table).0 ≡ upsert account t s table)
unfolding store_sealed
store_sealed-stored prims re tenant exec_ok account t failed table h = absurd (ground (arith, h))
store_sealed-stored prims re tenant exec_ok account t panicked table h = absurd (ground (arith, h))
store_sealed-stored prims re tenant exec_ok account t (ok s) table h = (s, refl, ground (arith, h))

module _ (prims : Primitives) (tenant : Bytes) (account : ℕ) (t : CredentialType) where
  read_back :
      (re : RotatingEncryptor) (s : Sealed) (table : Credentials) (plaintext : Bytes)
      → rotating_decrypt prims re tenant (purpose_for_type t) s ≡ ok plaintext
      → (get_credential prims re tenant true account t (upsert account t s table) ≡ ok plaintext)
        × (get_credential_direct prims re tenant true account t (upsert account t s table)
            ≡ ok plaintext)
  unfolding get_credential get_credential_direct read_sealed read_direct
  read_back re s table plaintext h =
      rw (upsert_self account t s table, direct_purpose-purpose_for_type t) (h, h)

  -- A credential that is stored is read back as it was, by `GetCredential` and by getCredentialDirect,
  -- under the encryptor that stored it and under the next, made of a new key and the old one, if the
  -- new key does not open it by accident and the nonce has the right length.
  pub get_credential-store_credential :
      (b : ℕ) (bs older new_key : Bytes) (before after : RotatingEncryptor)
      (random plaintext : Bytes) (table : Credentials)
      → new_rotating_encryptor prims (b ∷ bs) older ≡ ok before
      → new_rotating_encryptor prims new_key (b ∷ bs) ≡ ok after
      → length random ≡ nonce_size
      → (store_credential prims before tenant true account t (some random) plaintext table).1 ≡ true
      → ((s : Sealed)
          → rotating_encrypt prims before tenant (purpose_for_type t) (some random) plaintext ≡ ok s
          → decrypt_for_purpose prims after.current tenant (purpose_for_type t) s ≡ failed)
      → let stored =
          (store_credential prims before tenant true account t (some random) plaintext table).0 in
        (get_credential prims before tenant true account t stored ≡ ok plaintext)
        × (get_credential_direct prims before tenant true account t stored ≡ ok plaintext)
        × (get_credential prims after tenant true account t stored ≡ ok plaintext)
        × (get_credential_direct prims after tenant true account t stored ≡ ok plaintext)
  unfolding store_credential
  get_credential-store_credential b bs older new_key before after random plaintext table made
        rotated h kept shut =
      let sealed =
        rotating_encrypt prims before tenant (purpose_for_type t) (some random) plaintext in
      let (s, made_of, stored) =
        store_sealed-stored prims before tenant true account t sealed table kept in
      let (now, later) =
        rotating_decrypt-rotating_encrypt prims b bs older new_key before after tenant
          (purpose_for_type t) random plaintext s made rotated h made_of (shut s made_of) in
      let (a, b') = read_back before s table plaintext now in
      let (c, d) = read_back after s table plaintext later in rw stored (a, b', c, d)
