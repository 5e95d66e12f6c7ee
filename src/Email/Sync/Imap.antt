-- ===== src/Email/Sync/Imap.antt =====
-- The IMAP syncer (internal/email/sync/imap_sync.go). The answers of the mail server and of the
-- database are a record; those of a batch go by its number, those of an insert by the UID.
pub mod Uids
pub mod Below
pub mod Moves
pub mod Times
pub mod Answers
pub mod Complete
pub mod Forward
use regent_backend.Base.{
  if_each, ℕ, zero, suc, ◌+◌, ◌-◌, ◌*◌, ◌/◌, ◌%◌, ◌≤◌, ◌<◌, min, max, ◌≡◌, refl, sym, ap, ◌∙◌,
  subst, ◌≢◌, ◌↔◌, ◌⊎◌, inl, inr, Bool, true, false, ◌&&◌, ◌||◌, not, Option, none, some, List, [],
  ◌∷◌, ◌++◌, map, arith, ltb, leb, ◌==◌, if◌then◌else◌, Bool-cases, Option-cases, All, All-append,
  length, ltb→lt, lt→ltb, leb→le, ==_iff, get_elem?, take, drop, length-take, length-append, count,
  count-append, count-split, count-filter, count-filter_one, count_mono, filter,
}
use regent_backend.Email.Emails.{EmailRow}
use regent_backend.Email.Sync.Cursor.{
  SyncError, select_failed, search_failed, cursor_failed, start_failed, cancelled, Store, complete,
  set_baseline, syncing, update_progress, update_last_uid, mark_started, write, percent,
}
use regent_backend.Email.Sync.Messages.{Mail, Fetched, process_imap_message}
use regent_backend.Email.Sync.Imap.Uids.{max_uid, filter_above_uid, sort_uids, batches}

-- `fetch_at` answers the messages that were fetched, and whether there was no error.
pub record ImapCalls (Raw : Type 0) : Type 0 where
  pub selected : Bool
  pub found : Option (List ℕ)
  pub cursor_read : Bool
  pub baseline_written : Bool
  pub start_written : Bool
  pub completion_written : Bool
  pub cancelled_at : ℕ → Bool
  pub fetch_at : ℕ → List ℕ → List (Fetched Raw) × Bool
  pub stored : ℕ → Bool
  pub last_uid_written : ℕ → Bool
  pub progress_written : ℕ → Bool

-- What the messages of a batch come to: the table, the count of those synced, and the highest UID of
-- those that were processed, 0 for none.
pub record Batch : Type 0 where
  pub emails : List EmailRow
  pub synced : ℕ
  pub max_uid : ℕ

-- The writes after a batch.
unfoldable pub save_uid : Bool → ℕ → Store → Store
save_uid written uid s =
    if ltb 0 uid then record s { cursor = write written (update_last_uid uid) s.cursor } else s

unfoldable pub save_batch :
    (uid_written progress_written : Bool) → (total : ℕ) → Batch → Store → Store
save_batch uid_written progress_written total b s =
    let stored = save_uid uid_written b.max_uid (record s { emails = b.emails }) in
    let progress = update_progress syncing (percent b.synced total) b.synced in
    record stored { cursor = write progress_written progress stored.cursor }

module _ (m : Mail) where
  open m use {Raw}

  unfoldable pub process_batch : (ℕ → Bool) → (account_id : ℕ) → List (Fetched Raw) → Batch → Batch
  process_batch stored account_id [] b = b
  process_batch stored account_id (message ∷ rest) b =
      let result = process_imap_message m (stored message.uid) account_id message b.emails in
      let done : Batch = record {
        emails = result.0;
        synced = suc b.synced;
        max_uid = if ltb b.max_uid message.uid then message.uid else b.max_uid;
      } in
      let after_success = process_batch stored account_id rest done in
      let after_error = process_batch stored account_id rest (record b { emails = result.0 }) in
      if result.1 then after_success else after_error

  -- The loop from the n-th batch on.
  unfoldable pub imap_loop :
      ImapCalls Raw
      → (account_id total n synced : ℕ) → List (List ℕ)
      → Store
      → Store × Option SyncError
  imap_loop calls account_id total n synced [] s = complete calls.completion_written s
  imap_loop calls account_id total n synced (uids ∷ rest) s =
      let answer = calls.fetch_at n uids in
      let b =
        process_batch calls.stored account_id answer.0
          (record { emails = s.emails; synced = synced; max_uid = 0 }) in
      let saved = save_batch (calls.last_uid_written n) (calls.progress_written n) total b s in
      let after_batch = imap_loop calls account_id total (suc n) b.synced rest saved in
      let skipped = imap_loop calls account_id total (suc n) synced rest s in
      if calls.cancelled_at n
      then (s, some cancelled)
      else (if not answer.1 && length answer.0 == 0 then skipped else after_batch)

  -- The UIDs above the last one, if there are any.
  unfoldable pub imap_new :
      ImapCalls Raw → (account_id : ℕ) → List ℕ → Store → Store × Option SyncError
  imap_new calls account_id uids s =
      let total = length uids in
      let started : Store = record s { cursor = mark_started total s.cursor } in
      if total == 0
      then complete calls.completion_written s
      else (if calls.start_written
          then imap_loop calls account_id total 0 0 (batches total uids) started
          else (s, some start_failed))

  -- The last UID of the cursor tells a new account.
  unfoldable pub imap_from :
      Option ℕ → ImapCalls Raw → (account_id : ℕ) → List ℕ → Store → Store × Option SyncError
  imap_from none calls account_id uids s =
      set_baseline calls.baseline_written calls.completion_written (max_uid uids) s
  imap_from (some last) calls account_id uids s =
      imap_new calls account_id (sort_uids (filter_above_uid last uids)) s

  unfoldable pub imap_found :
      Option (List ℕ) → ImapCalls Raw → (account_id : ℕ) → Store → Store × Option SyncError
  imap_found none calls account_id s = (s, some search_failed)
  imap_found (some uids) calls account_id s =
      if length uids == 0
      then complete calls.completion_written s
      else (if calls.cursor_read
          then imap_from s.cursor.last_uid calls account_id uids s
          else (s, some cursor_failed))

  -- `Sync`.
  unfoldable pub imap_sync : ImapCalls Raw → (account_id : ℕ) → Store → Store × Option SyncError
  imap_sync calls account_id s =
      if calls.selected then imap_found calls.found calls account_id s else (s, some select_failed)
