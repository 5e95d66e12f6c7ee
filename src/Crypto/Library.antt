-- ===== src/Crypto/Library.antt =====
-- What internal/crypto relies on of the Go libraries.
use regent_backend.Base.{ℕ, ◌≡◌, Option, some, List, length}

abbrev pub Bytes : Type 0
Bytes = List ℕ

-- The length of the nonce that `cipher.NewGCM` asks for.
abbrev pub nonce_size : ℕ
nonce_size = 12

pub record Primitives : Type 0 where
  -- `base64.StdEncoding.DecodeString`.
  pub decode_base64 : Bytes → Option Bytes
  -- `hkdf.New(sha256.New, secret, salt, info)`, read for 32 bytes.
  pub hkdf : (secret salt info : Bytes) → Option Bytes
  -- AES-GCM under a key, with no additional data.
  pub seal : (key nonce plaintext : Bytes) → Bytes
  pub unseal : (key nonce ciphertext : Bytes) → Option Bytes
  -- What is read has the length of the buffer.
  pub length-hkdf :
      (secret salt info key : Bytes) → hkdf secret salt info ≡ some key → length key ≡ 32
  -- `Open` gives back what `Seal` was given.
  pub unseal-seal :
      (key nonce plaintext : Bytes)
      → length nonce ≡ nonce_size
      → unseal key nonce (seal key nonce plaintext) ≡ some plaintext
