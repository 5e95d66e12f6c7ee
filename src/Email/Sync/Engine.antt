-- ===== src/Email/Sync/Engine.antt =====
-- The sync engine (internal/email/sync/engine.go) and the email poll of the cron scheduler that calls
-- it (`emailPoll` and `syncAccount` of internal/orchestrator/cron.go), for one account.
pub mod GmailPolls
use regent_backend.Base.{ℕ, Bool, true, false, ◌&&◌, not, Option, none, some, List, if◌then◌else◌}
use regent_backend.Email.Emails.{EmailRow}
use regent_backend.Email.Sync.Cursor.{
  Cursor, new_cursor, SyncError, cursor_failed, client_missing, unsupported_provider, Store,
  mark_error, write,
}
use regent_backend.Email.Sync.Messages.{Mail}
use regent_backend.Email.Sync.Imap.{ImapCalls, imap_sync}
use regent_backend.Email.Sync.Gmail.{GmailCalls, gmail_sync}

pub data Provider : Type 0 where
  gmail imap outlook other : Provider

-- `providerName`: outlook is read over IMAP.
unfoldable pub provider_name : Provider → Provider
provider_name gmail = gmail
provider_name imap = imap
provider_name outlook = imap
provider_name other = other

-- The emails, and the rows of sync_cursors for one account, where there are any.
pub record Database : Type 0 where
  pub emails : List EmailRow
  pub cursors : Provider → Option Cursor

-- Whether the cursor's query and its insert are run, and whether `MarkError` reaches the database.
pub record EngineCalls : Type 0 where
  pub cursor_read : Bool
  pub cursor_inserted : Bool
  pub error_written : Bool

-- The CHECK on the provider of a cursor.
unfoldable pub allows_cursor : Provider → Bool
allows_cursor gmail = true
allows_cursor imap = true
allows_cursor outlook = false
allows_cursor other = false

-- `GetOrCreateCursor`, on the row that there is.
unfoldable pub get_or_create_cursor : EngineCalls → Provider → Option Cursor → Option Cursor
unfolding allows_cursor new_cursor
get_or_create_cursor calls provider row =
    let created =
      if calls.cursor_inserted && allows_cursor provider then some new_cursor else none in
    if calls.cursor_read then elim row [ none ↦ created | some c ↦ some c ] else none

unfoldable pub same_provider : Provider → Provider → Bool
same_provider gmail gmail = true
same_provider imap imap = true
same_provider outlook outlook = true
same_provider other other = true
same_provider _ _ = false

-- The rows after a sync on the cursor of the provider.
unfoldable pub saved : Provider → Database → Store → Database
unfolding same_provider
saved provider d s = record {
  emails = s.emails;
  cursors = λ q. if same_provider q provider then some s.cursor else d.cursors q;
}

-- The result of a syncer, with its error in the cursor.
unfoldable pub with_error : Bool → Store × Option SyncError → Store × Option SyncError
with_error written (s, none) = (s, none)
with_error written (s, some e) = (record s { cursor = write written mark_error s.cursor }, some e)

module _ (m : Mail) where
  open m use {Raw}

  -- The switch of `Sync`; a client that is nil is none.
  unfoldable pub route :
      Provider
      → (written : Bool) → Option (ImapCalls Raw)
      → Option (GmailCalls Raw)
      → (account_id : ℕ) → Store
      → Store × Option SyncError
  route imap written (some client) service account_id s =
      with_error written (imap_sync m client account_id s)
  route imap written none service account_id s = (s, some client_missing)
  route gmail written client (some service) account_id s =
      with_error written (gmail_sync m service account_id s)
  route gmail written client none account_id s = (s, some client_missing)
  route outlook written client service account_id s = (s, some unsupported_provider)
  route other written client service account_id s = (s, some unsupported_provider)

  unfoldable pub with_cursor :
      (written : Bool)
      → Provider
      → Option (ImapCalls Raw)
      → Option (GmailCalls Raw)
      → (account_id : ℕ) → Database
      → Option Cursor
      → Database × Option SyncError
  unfolding saved route
  with_cursor written provider client service account_id d none = (d, some cursor_failed)
  with_cursor written provider client service account_id d (some c) =
      let s : Store = record { emails = d.emails; cursor = c } in
      let (s', e) = route provider written client service account_id s in (saved provider d s', e)

  unfoldable pub engine_sync :
      EngineCalls
      → Provider
      → Option (ImapCalls Raw)
      → Option (GmailCalls Raw)
      → (account_id : ℕ) → Database
      → Database × Option SyncError
  unfolding with_cursor get_or_create_cursor
  engine_sync calls provider client service account_id d =
      let p = provider_name provider in
      with_cursor calls.error_written p client service account_id d
        (get_or_create_cursor calls p (d.cursors p))

pub data AccountError : Type 0 where
  password_failed dial_failed login_failed : AccountError
  sync_failed : SyncError → AccountError

pub data AccountStatus : Type 0 where
  idle_status active_status error_status : AccountStatus

-- The answers that `syncAccount` meets before its sync, and whether the account's status is written.
pub record AccountCalls (Raw : Type 0) : Type 0 where
  pub password : Bool
  pub dialled : Bool
  pub logged_in : Bool
  pub engine : EngineCalls
  pub client : ImapCalls Raw
  pub status_written : Bool

pub record AccountState : Type 0 where
  pub store : Database
  pub sync_status : AccountStatus

-- `updateAccountSyncStatus`.
unfoldable pub update_account_sync_status : Bool → AccountStatus → AccountState → AccountState
update_account_sync_status written status a =
    if written then record a { sync_status = status } else a

-- The end of `syncAccount`, by the result of the engine.
unfoldable pub after_sync :
    Bool → Database × Option SyncError → AccountState → AccountState × Option AccountError
after_sync written (s, none) a =
    (update_account_sync_status written active_status (record a { store = s }), none)
after_sync written (s, some e) a = (record a { store = s }, some (sync_failed e))

-- The providers that `syncAccount` does not skip.
unfoldable pub polled : Provider → Bool
polled gmail = true
polled imap = true
polled outlook = true
polled other = false

module _ (m : Mail) where
  open m use {Raw}

  -- The engine is given the IMAP client, and no Gmail service.
  unfoldable pub sync_account :
      AccountCalls Raw
      → Provider
      → (account_id : ℕ) → AccountState
      → AccountState × Option AccountError
  sync_account calls provider account_id a =
      let result =
        engine_sync m calls.engine provider (some calls.client) none account_id a.store in
      if not (polled provider)
      then (a, none)
      else (if not calls.password
          then (a, some password_failed)
          else (if not calls.dialled
              then (a, some dial_failed)
              else (if not calls.logged_in
                  then (a, some login_failed)
                  else after_sync calls.status_written result a)))

  unfoldable pub record_error : Bool → AccountState × Option AccountError → AccountState
  record_error written (a, none) = a
  record_error written (a, some e) = update_account_sync_status written error_status a

  -- The body of the loop of `emailPoll`.
  unfoldable pub poll_account :
      AccountCalls Raw → Provider → (account_id : ℕ) → AccountState → AccountState
  poll_account calls provider account_id a =
      record_error calls.status_written (sync_account calls provider account_id a)
