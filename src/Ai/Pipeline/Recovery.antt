-- ===== src/Ai/Pipeline/Recovery.antt =====
-- Who runs an email again: `RecoverIncompleteJobs` of internal/ai/recovery.go, `ReprocessSkipped` of
-- internal/ai/reprocess.go, and the query of the AI processing job of internal/orchestrator/cron.go,
-- as a test of one row, without its LIMITs. Rows are scanned without an error.
use regent_backend.Base.{
  ℕ, ◌+◌, Bool, false, Option, none, some, List, [], ◌∷◌, ◌++◌, ◌&&◌, ◌||◌, not, ltb, ◌==◌,
  if◌then◌else◌, Table,
}
use regent_backend.Plan.{Plan}
use regent_backend.Ai.Pipeline.{
  Stage, queued, categorizing, summarizing, drafting, complete, error, skipped, stage_code,
  StatusRow,
}

-- The arguments of `EnqueueEmail`.
pub record Request : Type 0 where
  pub email_id : ℕ
  pub user_id : ℕ
  pub tenant_id : ℕ
  pub plan : Plan

unfoldable pub has_stage : Stage → StatusRow → Bool
has_stage s row = stage_code row.stage == stage_code s

unfoldable pub is_incomplete : StatusRow → Bool
unfolding has_stage
is_incomplete row = not (has_stage complete row || has_stage error row || has_stage skipped row)

unfoldable pub recovered : ℕ → Option StatusRow → List Request
unfolding is_incomplete
recovered id none = []
recovered id (some row) =
    if is_incomplete row
    then record { email_id = id; user_id = row.user_id; tenant_id = row.tenant_id; plan = row.plan }
      ∷ []
    else []

unfoldable pub reprocessed : (user_id : ℕ) → Plan → ℕ → Option StatusRow → List Request
unfolding has_stage
reprocessed u new_plan id none = []
reprocessed u new_plan id (some row) =
    if row.user_id == u && has_stage skipped row
    then record { email_id = id; user_id = row.user_id; tenant_id = row.tenant_id; plan = new_plan }
      ∷ []
    else []

-- The requests that `EnqueueEmail` takes; a failure is logged. The count returned is their number.
unfoldable pub accepted : (ok : ℕ → Bool) → List Request → List Request
accepted ok [] = []
accepted ok (r ∷ rs) = let rest = accepted ok rs in if ok r.email_id then r ∷ rest else rest

-- The rows by their emails.
unfoldable pub rows_of :
    (ℕ → Option StatusRow → List Request) → List ℕ → Table StatusRow → List Request
rows_of pick [] t = []
rows_of pick (id ∷ ids) t = pick id (t id) ++ rows_of pick ids t

unfoldable pub recover_incomplete_jobs : (ok : ℕ → Bool) → List ℕ → Table StatusRow → List Request
unfolding accepted rows_of recovered
recover_incomplete_jobs ok ids t = accepted ok (rows_of recovered ids t)

unfoldable pub reprocess_skipped :
    (ok : ℕ → Bool) → (user_id : ℕ) → Plan → List ℕ → Table StatusRow → List Request
unfolding accepted rows_of reprocessed
reprocess_skipped ok u new_plan ids t = accepted ok (rows_of (reprocessed u new_plan) ids t)

abbrev pub five_minutes : ℕ
five_minutes = 300_000_000_000

abbrev pub ten_minutes : ℕ
ten_minutes = 600_000_000_000

-- Completed more than five minutes ago; a comparison with NULL does not hold.
unfoldable pub is_cool : Option ℕ → (now : ℕ) → Bool
is_cool none now = false
is_cool (some c) now = ltb (c + five_minutes) now

unfoldable pub is_due : (now : ℕ) → StatusRow → Bool
unfolding has_stage is_cool
is_due now row =
    has_stage queued row
    || ((has_stage categorizing row || has_stage summarizing row || has_stage drafting row)
        && ltb (row.started_at + ten_minutes) now)
    || (has_stage error row && ltb row.retry_count 3 && is_cool row.completed_at now)
