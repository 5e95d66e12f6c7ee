-- ===== src/Email/Credentials/Tests.antt =====
-- Credentials under the toy cipher of Crypto/Tests.antt.
use regent_backend.Base.{codes, ◌≡◌, refl, subst, true, none, some, [], ◌∷◌}
use regent_backend.Crypto.Tests.{toy, first_key, second_key, twelve, sealed}
use regent_backend.Crypto.Library.{Bytes}
use regent_backend.Crypto.{
  ok, failed, Sealed, new_rotating_encryptor, rotating_encrypt, decrypt_for_purpose,
}
use regent_backend.Email.Credentials.{
  purpose_for_type, other_type, Credentials, store_credential, get_credential,
  get_credential_direct,
}
use regent_backend.Email.Credentials.Stored.{get_credential-store_credential}

abbrev nothing_stored : Credentials
nothing_stored a k = none

-- The IMAP password of account 3, under the key that starts with 7.
abbrev after_store : Credentials
after_store =
    (store_credential toy first_key [] true 3 (other_type 0) (some twelve) (65 ∷ 66 ∷ [])
      nothing_stored).0

-- The toy key that starts with 8 does not open what that with 7 seals.
new_key_fails :
    (purpose : Bytes) (s : Sealed)
    → rotating_encrypt toy first_key [] purpose (some twelve) (65 ∷ 66 ∷ []) ≡ ok s
    → decrypt_for_purpose toy second_key.current [] purpose s ≡ failed
unfolding rotating_encrypt decrypt_for_purpose
new_key_fails purpose s e =
    let same : sealed ≡ s = cc (e) in
    subst (λ x. decrypt_for_purpose toy second_key.current [] purpose x ≡ failed) same refl

get_credential-store_credential_example :
    (get_credential toy first_key [] true 3 (other_type 0) after_store ≡ ok (65 ∷ 66 ∷ []))
    × (get_credential_direct toy first_key [] true 3 (other_type 0) after_store ≡ ok (65 ∷ 66 ∷ []))
    × (get_credential toy second_key [] true 3 (other_type 0) after_store ≡ ok (65 ∷ 66 ∷ []))
    × (get_credential_direct toy second_key [] true 3 (other_type 0) after_store
        ≡ ok (65 ∷ 66 ∷ []))
unfolding new_rotating_encryptor store_credential purpose_for_type
get_credential-store_credential_example =
    get_credential-store_credential toy [] 3 (other_type 0) 7 [] [] (8 ∷ []) first_key second_key
      twelve (65 ∷ 66 ∷ []) nothing_stored refl refl refl refl
      (new_key_fails (codes "regent-imap-credentials"))
