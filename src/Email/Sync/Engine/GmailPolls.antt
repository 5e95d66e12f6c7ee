-- ===== src/Email/Sync/Engine/GmailPolls.antt =====
-- The poll of an account that is read through the Gmail API.
use regent_backend.Base.{
  ℕ, ◌≡◌, ◌≢◌, ◌⊎◌, inl, inr, refl, ap, Bool, true, false, not, Option, none, some, arith, if_each,
  if◌then◌else◌,
}
use regent_backend.Email.Sync.Cursor.{Cursor, new_cursor, SyncError}
use regent_backend.Email.Sync.Messages.{Mail}
use regent_backend.Email.Sync.Imap.{ImapCalls}
use regent_backend.Email.Sync.Engine.{
  polled, provider_name, password_failed, dial_failed, login_failed, Provider, gmail, imap, outlook,
  other, Database, EngineCalls, get_or_create_cursor, saved, same_provider, with_cursor,
  engine_sync, AccountError, AccountState, AccountCalls, error_status, update_account_sync_status,
  after_sync, sync_account, record_error, poll_account,
}

-- The rows are the same, but that the Gmail cursor, where there was none, may be new and pending.
pub record Unsynced (d e : Database) : Type 0 where
  pub emails : e.emails ≡ d.emails
  pub others : (q : Provider) → q ≢ gmail → e.cursors q ≡ d.cursors q
  pub cursor :
      (e.cursors gmail ≡ d.cursors gmail)
      ⊎ ((d.cursors gmail ≡ none) × (e.cursors gmail ≡ some new_cursor))

Unsynced-refl : (d : Database) → Unsynced d d
Unsynced-refl d = record { emails = refl; others = λ q h. refl; cursor = inl refl }

get_or_create_cursor-some :
    (calls : EngineCalls) (row : Option Cursor) (c : Cursor)
    → get_or_create_cursor calls gmail row ≡ some c
    → (some c ≡ row) ⊎ ((row ≡ none) × (some c ≡ some new_cursor))
unfolding get_or_create_cursor
get_or_create_cursor-some calls none c h = inr (refl, ground (arith, h))
get_or_create_cursor-some calls (some r) c h = inl (ground (arith, h))

not_gmail : (q : Provider) → q ≢ gmail → same_provider q gmail ≡ false
unfolding same_provider
not_gmail gmail h = absurd (h refl)
not_gmail imap h = refl
not_gmail outlook h = refl
not_gmail other h = refl

module _ (m : Mail) where
  open m use {Raw}

  with_cursor-gmail :
      (calls : EngineCalls) (written : Bool) (client : Option (ImapCalls Raw)) (account_id : ℕ)
      (d : Database) (o : Option Cursor)
      → get_or_create_cursor calls gmail (d.cursors gmail) ≡ o
      → let r = with_cursor m written gmail client none account_id d o in
        Unsynced d r.0 × (e : SyncError) × (r.1 ≡ some e)
  unfolding with_cursor saved same_provider
  with_cursor-gmail calls written client account_id d none h = (Unsynced-refl d, _, refl)
  with_cursor-gmail calls written client account_id d (some c) h = (
    record {
      emails = refl;
      others = λ q n. ap (λ b. if b then some c else d.cursors q) (not_gmail q n);
      cursor = get_or_create_cursor-some calls (d.cursors gmail) c h;
    },
    _,
    refl,
  )

  -- What a failed poll leaves.
  abbrev Failed : Bool → AccountState → AccountState × Option AccountError → Type 0
  Failed written a r =
      let b = record_error m written r in
      Unsynced a.store b.store × (b.sync_status ≡ (if written then error_status else a.sync_status))

  Failed-some :
      (written : Bool) (a : AccountState) (d : Database) (e : AccountError)
      → Unsynced a.store d
      → Failed written a (record a { store = d }, some e)
  unfolding record_error update_account_sync_status
  Failed-some true a d e h = (h, refl)
  Failed-some false a d e h = (h, refl)

  Failed-after_sync :
      (written : Bool) (a : AccountState) (d : Database) (o : Option SyncError) (e : SyncError)
      → o ≡ some e
      → Unsynced a.store d
      → Failed written a (after_sync written (d, o) a)
  unfolding after_sync
  Failed-after_sync written a d none e q h = cc (q)
  Failed-after_sync written a d (some e') e q h = Failed-some written a d _ h

  -- The poll of a Gmail account fails, whatever the mail server and the database answer. No email and
  -- no cursor changes, but that a missing Gmail cursor may be made, new and pending; and the account's
  -- status becomes an error where it can be written.
  pub poll_account-gmail :
      (calls : AccountCalls Raw) (account_id : ℕ) (a : AccountState)
      → let b = poll_account m calls gmail account_id a in
        Unsynced a.store b.store
        × (b.sync_status ≡ (if calls.status_written then error_status else a.sync_status))
  unfolding poll_account sync_account engine_sync polled provider_name
  poll_account-gmail calls account_id a =
      let P = Failed calls.status_written a in
      let early : (e : AccountError) → P (a, some e) =
        λ e. Failed-some calls.status_written a a.store e (Unsynced-refl a.store) in
      let (kept, e, fails) =
        with_cursor-gmail calls.engine calls.engine.error_written (some calls.client) account_id
          a.store _ refl in
      if_each P (not calls.password) _ _ (early password_failed) (
        if_each P (not calls.dialled) _ _ (early dial_failed) (
          if_each P (not calls.logged_in) _ _ (early login_failed)
            (Failed-after_sync calls.status_written a _ _ e fails kept)))
