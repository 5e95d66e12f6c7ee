-- ===== src/Email/Sync/Cursor.antt =====
-- The row of sync_cursors for an account and provider, and the writes of ProgressTracker
-- (internal/email/sync/progress.go). A write that fails leaves the row.
use regent_backend.Email.Emails.{EmailRow}
use regent_backend.Base.{
  ℕ, ◌*◌, ◌/◌, ◌≡◌, refl, Bool, true, false, Option, none, some, List, ltb, if◌then◌else◌,
}

pub data SyncState : Type 0 where
  pending syncing active error : SyncState

pub record Cursor : Type 0 where
  pub last_uid : Option ℕ
  pub sync_state : SyncState
  pub progress_pct : ℕ
  pub total_messages : Option ℕ
  pub synced_messages : ℕ
  pub has_error : Bool

unfoldable pub new_cursor : Cursor
new_cursor = record {
  last_uid = none;
  sync_state = pending;
  progress_pct = 0;
  total_messages = none;
  synced_messages = 0;
  has_error = false;
}

unfoldable pub update_progress : SyncState → (pct synced : ℕ) → Cursor → Cursor
update_progress state pct synced c = record c {
  sync_state = state;
  progress_pct = pct;
  synced_messages = synced;
}

unfoldable pub update_last_uid : ℕ → Cursor → Cursor
update_last_uid uid c = record c { last_uid = some uid }

unfoldable pub mark_started : ℕ → Cursor → Cursor
mark_started total c = record c {
  sync_state = syncing;
  total_messages = some total;
  progress_pct = 0;
  synced_messages = 0;
  has_error = false;
}

unfoldable pub mark_completed : Cursor → Cursor
mark_completed c = record c { sync_state = active; progress_pct = 100 }

unfoldable pub mark_error : Cursor → Cursor
mark_error c = record c { sync_state = error; has_error = true }

-- A write, and whether it reaches the database.
unfoldable pub write : Bool → (Cursor → Cursor) → Cursor → Cursor
write ok change c = if ok then change c else c

-- `(done * 100) / total`, at most 100.
unfoldable pub percent : (done total : ℕ) → ℕ
percent done total = let pct = done * 100 / total in if ltb 100 pct then 100 else pct

pub data SyncError : Type 0 where
  select_failed search_failed cursor_failed baseline_failed start_failed completion_failed :
      SyncError
  cancelled client_missing unsupported_provider : SyncError

-- The part of the database that a sync changes.
pub record Store : Type 0 where
  pub emails : List EmailRow
  pub cursor : Cursor

-- `MarkCompleted`, whose error ends the sync.
unfoldable pub complete : Bool → Store → Store × Option SyncError
complete written s =
    if written
    then (record s { cursor = mark_completed s.cursor }, none)
    else (s, some completion_failed)

-- The first sync of an account: the cursor's UID becomes the baseline.
unfoldable pub set_baseline :
    (baseline_written completion_written : Bool) → ℕ → Store → Store × Option SyncError
set_baseline baseline_written completion_written uid s =
    if baseline_written
    then complete completion_written (record s { cursor = update_last_uid uid s.cursor })
    else (s, some baseline_failed)

pub complete-emails : (written : Bool) (s : Store) → (complete written s).0.emails ≡ s.emails
unfolding complete
complete-emails true s = refl
complete-emails false s = refl

pub set_baseline-emails :
    (first second : Bool) (uid : ℕ) (s : Store)
    → (set_baseline first second uid s).0.emails ≡ s.emails
unfolding set_baseline
set_baseline-emails true second uid s = complete-emails second _
set_baseline-emails false second uid s = refl
