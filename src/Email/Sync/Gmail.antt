-- ===== src/Email/Sync/Gmail.antt =====
-- The Gmail syncer (internal/email/sync/gmail_sync.go). The answers of Gmail and of the database are a
-- record; those of a message or a write go by the position of the message in the list.
pub mod Stuck
use regent_backend.Base.{
  ℕ, zero, suc, ◌+◌, ◌-◌, ◌*◌, ◌/◌, ◌%◌, ◌≤◌, ◌<◌, min, max, ◌≡◌, refl, sym, ap, ◌∙◌, subst, ◌≢◌,
  ◌↔◌, ◌⊎◌, inl, inr, Bool, true, false, ◌&&◌, ◌||◌, not, Option, none, some, List, [], ◌∷◌, ◌++◌,
  map, arith, ltb, leb, ◌==◌, if◌then◌else◌, Bool-cases, Option-cases, All, All-append, length,
  ltb→lt, lt→ltb, leb→le, ==_iff, get_elem?, take, drop, length-take, length-append, count,
  count-append, count-split, count-filter, count-filter_one, count_mono, filter,
}
use regent_backend.Email.Sync.Cursor.{
  SyncError, start_failed, search_failed, cursor_failed, cancelled, Store, complete, set_baseline,
  syncing, update_progress, mark_started, write, percent,
}
use regent_backend.Email.Sync.Messages.{Mail, process_gmail_message}

-- `messages` are the listed messages, each with the answer of `GetRawMessage`.
pub record GmailCalls (Raw : Type 0) : Type 0 where
  pub cursor_read : Bool
  pub messages : Option (List (Option Raw))
  pub baseline_written : Bool
  pub start_written : Bool
  pub completion_written : Bool
  pub cancelled_at : ℕ → Bool
  pub checked_at : ℕ → Bool
  pub stored_at : ℕ → Bool
  pub progress_written : ℕ → Bool

module _ (m : Mail) where
  open m use {Raw}

  -- The loop from the i-th message on, with the count of those synced.
  unfoldable pub gmail_loop :
      GmailCalls Raw
      → (account_id total i synced : ℕ) → List (Option Raw)
      → Store
      → Store × Option SyncError
  gmail_loop calls account_id total i synced [] s = complete calls.completion_written s
  gmail_loop calls account_id total i synced (raw ∷ rest) s =
      let result =
        process_gmail_message m (calls.checked_at i) (calls.stored_at i) account_id raw s.emails in
      let progress = update_progress syncing (percent (i + 1) total) (suc synced) in
      let done : Store = record {
        emails = result.0;
        cursor = write (calls.progress_written i) progress s.cursor;
      } in
      let after_success = gmail_loop calls account_id total (suc i) (suc synced) rest done in
      let after_error =
        gmail_loop calls account_id total (suc i) synced rest (record s { emails = result.0 }) in
      if calls.cancelled_at i
      then (s, some cancelled)
      else (if result.1 then after_success else after_error)

  -- The last UID of the cursor tells a new account.
  unfoldable pub gmail_from :
      Option ℕ
      → GmailCalls Raw
      → (account_id : ℕ) → List (Option Raw)
      → Store
      → Store × Option SyncError
  gmail_from none calls account_id messages s =
      set_baseline calls.baseline_written calls.completion_written (length messages) s
  gmail_from (some uid) calls account_id messages s =
      let total = length messages in
      let started : Store = record s { cursor = mark_started total s.cursor } in
      if calls.start_written
      then gmail_loop calls account_id total 0 0 messages started
      else (s, some start_failed)

  unfoldable pub gmail_listed :
      Option (List (Option Raw))
      → GmailCalls Raw
      → (account_id : ℕ) → Store
      → Store × Option SyncError
  gmail_listed none calls account_id s = (s, some search_failed)
  gmail_listed (some messages) calls account_id s =
      if length messages == 0
      then complete calls.completion_written s
      else gmail_from s.cursor.last_uid calls account_id messages s

  -- `Sync`.
  unfoldable pub gmail_sync : GmailCalls Raw → (account_id : ℕ) → Store → Store × Option SyncError
  gmail_sync calls account_id s =
      if calls.cursor_read
      then gmail_listed calls.messages calls account_id s
      else (s, some cursor_failed)
