-- ===== src/Email/Credentials.antt =====
-- internal/email/credentials.go: the passwords of mail accounts, encrypted in email_credentials; and
-- getCredentialDirect of internal/orchestrator/cron.go, which reads them. The texts of a tenant, an
-- account and a type of credential are numbers where they are only compared.
pub mod Stored
mod Tests
use regent_backend.Base.{
  ℕ, ◌+◌, Bool, true, false, Option, none, some, codes, ◌==◌, ◌&&◌, if◌then◌else◌,
}
use regent_backend.Crypto.Library.{Primitives, Bytes}
use regent_backend.Crypto.{
  Outcome, ok, failed, panicked, Sealed, RotatingEncryptor, rotating_encrypt, rotating_decrypt,
}

pub data CredentialType : Type 0 where
  smtp_password : CredentialType
  -- Any other text, numbered.
  other_type : ℕ → CredentialType

abbrev pub type_code : CredentialType → ℕ
type_code smtp_password = 0
type_code (other_type n) = 1 + n

unfoldable pub purpose_for_type : CredentialType → Bytes
purpose_for_type smtp_password = codes "regent-smtp-credentials"
purpose_for_type (other_type n) = codes "regent-imap-credentials"

-- The values of email_credentials by account and type, the unique key. The version of the key, which
-- is always 1, is left out.
abbrev pub Credentials : Type 0
Credentials = ℕ → ℕ → Option Sealed

unfoldable pub upsert : (account : ℕ) → CredentialType → Sealed → Credentials → Credentials
upsert account t s table a k = if a == account && k == type_code t then some s else table a k

module _ (prims : Primitives) (re : RotatingEncryptor) (tenant : Bytes) where
  -- The table and whether nil is returned.
  unfoldable pub store_sealed :
      (exec_ok : Bool) (account : ℕ)
      → CredentialType
      → Outcome Sealed
      → Credentials
      → Credentials × Bool
  unfolding upsert
  store_sealed exec_ok account t failed table = (table, false)
  store_sealed exec_ok account t panicked table = (table, false)
  store_sealed exec_ok account t (ok s) table =
      if exec_ok then (upsert account t s table, true) else (table, false)

  unfoldable pub store_credential :
      (exec_ok : Bool) (account : ℕ)
      → CredentialType
      → (random : Option Bytes) (plaintext : Bytes) → Credentials
      → Credentials × Bool
  unfolding store_sealed purpose_for_type rotating_encrypt
  store_credential exec_ok account t random plaintext table =
      store_sealed exec_ok account t
        (rotating_encrypt prims re tenant (purpose_for_type t) random plaintext) table

  unfoldable pub read_sealed : CredentialType → Option Sealed → Outcome Bytes
  unfolding purpose_for_type rotating_decrypt
  read_sealed t none = failed
  read_sealed t (some s) = rotating_decrypt prims re tenant (purpose_for_type t) s

  unfoldable pub get_credential :
      (query_ok : Bool) (account : ℕ) → CredentialType → Credentials → Outcome Bytes
  unfolding read_sealed
  get_credential query_ok account t table =
      if query_ok then read_sealed t (table account (type_code t)) else failed

-- The purpose that getCredentialDirect uses.
unfoldable pub direct_purpose : CredentialType → Bytes
direct_purpose smtp_password = codes "regent-smtp-credentials"
direct_purpose (other_type n) = codes "regent-imap-credentials"

module _ (prims : Primitives) (re : RotatingEncryptor) (tenant : Bytes) where
  unfoldable pub read_direct : CredentialType → Option Sealed → Outcome Bytes
  unfolding direct_purpose rotating_decrypt
  read_direct t none = failed
  read_direct t (some s) = rotating_decrypt prims re tenant (direct_purpose t) s

  unfoldable pub get_credential_direct :
      (query_ok : Bool) (account : ℕ) → CredentialType → Credentials → Outcome Bytes
  unfolding read_direct
  get_credential_direct query_ok account t table =
      if query_ok then read_direct t (table account (type_code t)) else failed
