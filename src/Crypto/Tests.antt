-- ===== src/Crypto/Tests.antt =====
-- Encryption with a toy cipher that meets the interface: the ciphertext starts with the key's first
-- byte.
use regent_backend.Base.{
  ℕ, ◌≡◌, refl, sym, ap, ◌∙◌, Option, none, some, [], ◌∷◌, arith, ◌==◌, if◌then◌else◌, length,
  replicate, length-replicate,
}
use mathlib.Core.Option.{some-injective}
use regent_backend.Crypto.Library.{Primitives, Bytes}
use regent_backend.Crypto.{
  ok, failed, Sealed, Encryptor, RotatingEncryptor, new_encryptor, rotating_encrypt,
  rotating_decrypt,
}

abbrev head_of : Bytes → ℕ
head_of [] = 0
head_of (b ∷ bs) = b

abbrev unlock : ℕ → Bytes → Option Bytes
unlock k [] = none
unlock k (b ∷ bs) = if b == k then some bs else none

pub unlock-same : (k : ℕ) (bs : Bytes) → unlock k (k ∷ bs) ≡ some bs
unlock-same k bs = ground arith

pub toy_length :
    (secret salt info key : Bytes)
    → some (replicate 32 (head_of secret)) ≡ some key
    → length key ≡ 32
toy_length secret salt info key e =
    sym (ap length (some-injective (replicate 32 (head_of secret)) key e))
    ∙ length-replicate 32 (head_of secret)

abbrev pub toy : Primitives
toy = record {
  decode_base64 = λ text. some (replicate 32 (head_of text));
  hkdf = λ secret salt info. some (replicate 32 (head_of secret));
  seal = λ key nonce plaintext. head_of key ∷ plaintext;
  unseal = λ key nonce ciphertext. unlock (head_of key) ciphertext;
  length-hkdf = toy_length;
  unseal-seal = λ key nonce plaintext h. unlock-same (head_of key) plaintext;
}

abbrev pub encryptor_of : ℕ → Option Encryptor → RotatingEncryptor
encryptor_of b previous = record {
  current = record { master_key = replicate 32 b };
  previous = previous;
}

abbrev pub first_key : RotatingEncryptor
first_key = encryptor_of 7 none

abbrev pub second_key : RotatingEncryptor
second_key = encryptor_of 8 (some (record { master_key = replicate 32 7 }))

abbrev pub twelve : Bytes
twelve = replicate 12 1

abbrev pub sealed : Sealed
sealed = record { ciphertext = 7 ∷ 65 ∷ 66 ∷ []; nonce = twelve }

sealed_by_first : rotating_encrypt toy first_key [] [] (some twelve) (65 ∷ 66 ∷ []) ≡ ok sealed
unfolding rotating_encrypt
sealed_by_first = refl

opened_by_second : rotating_decrypt toy second_key [] [] sealed ≡ ok (65 ∷ 66 ∷ [])
unfolding rotating_decrypt
opened_by_second = refl

-- A key of another length than 32.
short_key_refused :
    new_encryptor (record toy { decode_base64 = λ text. some text }) (1 ∷ []) ≡ failed
unfolding new_encryptor
short_key_refused = refl
