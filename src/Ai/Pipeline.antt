-- ===== src/Ai/Pipeline.antt =====
-- internal/ai/queue/pipeline.go: the run of a job through categorizing, summarizing and drafting, and
-- the row of email_ai_status that tells how far it is. The three engines and the load of the email
-- are an interface; which status writes reach the database, and when, is an input of a run.
pub mod Skip
pub mod Outcome
pub mod Calls
pub mod Keeps
pub mod Retries
pub mod Recovery
mod Tests
use regent_backend.Base.{
  ℕ, ◌+◌, Bool, true, false, Option, none, some, List, [], ◌∷◌, ◌++◌, ◌||◌, ◌==◌, if◌then◌else◌,
  Table, put,
}
use Prim.Native.String.{String}
use regent_backend.Plan.{Plan, free, attache, privy_council, estate, unlisted}
use regent_backend.Ai.Queue.{Job}
use Skip.{
  Email, Categorized, Summarized, cat_failed, no_category, cat_opaque, category, no_summary,
  should_skip_draft,
}

pub data Stage : Type 0 where
  queued categorizing summarizing drafting complete error skipped : Stage

abbrev pub stage_code : Stage → ℕ
stage_code queued = 0
stage_code categorizing = 1
stage_code summarizing = 2
stage_code drafting = 3
stage_code complete = 4
stage_code error = 5
stage_code skipped = 6

-- The map PlanStages, with the stages of "free" for a missing key.
unfoldable pub stages_of : Plan → List Stage
stages_of free = categorizing ∷ []
stages_of attache = categorizing ∷ summarizing ∷ drafting ∷ []
stages_of privy_council = categorizing ∷ summarizing ∷ drafting ∷ []
stages_of estate = categorizing ∷ summarizing ∷ drafting ∷ []
stages_of (unlisted n) = categorizing ∷ []

unfoldable pub contains_stage : List Stage → Stage → Bool
contains_stage [] target = false
contains_stage (s ∷ ss) target = stage_code s == stage_code target || contains_stage ss target

pub data Tier : Type 0 where
  standard premium : Tier

-- The map draftTier, "standard" for a missing key.
unfoldable pub draft_tier : Plan → Tier
draft_tier free = standard
draft_tier attache = standard
draft_tier privy_council = premium
draft_tier estate = premium
draft_tier (unlisted n) = standard

-- The text of `err.Error()` by where the error comes from.
pub data Message : Type 0 where
  no_message load_message categorize_message : Message

-- A row of email_ai_status. `skipped_reason` names a stage, or is empty.
pub record StatusRow : Type 0 where
  pub user_id : ℕ
  pub tenant_id : ℕ
  pub plan : Plan
  pub stage : Stage
  pub started_at : ℕ
  pub completed_at : Option ℕ
  pub retry_count : ℕ
  pub error_message : Message
  pub skipped_reason : Option Stage

-- Whether a status write of a stage reaches the database, and when it is made.
pub record Writes : Type 0 where
  pub saved : Stage → Bool
  pub time : Stage → ℕ

unfoldable pub completed : Stage → ℕ → Option ℕ
completed complete now = some now
completed error now = some now
completed skipped now = some now
completed queued now = none
completed categorizing now = none
completed summarizing now = none
completed drafting now = none

unfoldable pub retries : Stage → ℕ → ℕ
retries error n = n + 1
retries queued n = n
retries categorizing n = n
retries summarizing n = n
retries drafting n = n
retries complete n = n
retries skipped n = n

-- INSERT ... ON CONFLICT (email_id) DO UPDATE.
unfoldable pub upsert :
    Job → Stage → Message → Option Stage → (now : ℕ) → Option StatusRow → StatusRow
unfolding completed retries
upsert job s msg reason now none = record {
  user_id = job.user_id;
  tenant_id = job.tenant_id;
  plan = job.plan;
  stage = s;
  started_at = now;
  completed_at = completed s now;
  retry_count = 0;
  error_message = msg;
  skipped_reason = reason;
}
upsert job s msg reason now (some row) = record row {
  stage = s;
  completed_at = completed s now;
  retry_count = retries s row.retry_count;
  error_message = msg;
  skipped_reason = reason;
}

-- A failure is logged, and the row stays as it is.
unfoldable pub update_status :
    Writes → Job → Stage → Message → Option Stage → Table StatusRow → Table StatusRow
unfolding upsert
update_status w job s msg reason t =
    if w.saved s
    then put job.email_id (upsert job s msg reason (w.time s) (t job.email_id)) t
    else t

-- What a run asks of the engines.
pub data Call : Type 0 where
  to_categorizer to_summarizer : Call
  to_drafter : Tier → Call

pub record Engines : Type 0 where
  pub load_email : ℕ → Option Email
  pub categorize : Email → (user_id : ℕ) → Categorized
  pub summarize : Email → Summarized
  -- Whether a draft was generated, which the run ignores.
  pub generate_draft : Email → Tier → Categorized → (user_id : ℕ) → Bool

-- The statuses, whether nil was returned, and the calls in order.
pub record Run : Type 0 where
  pub statuses : Table StatusRow
  pub ok : Bool
  pub calls : List Call

module _ (w : Writes) (e : Engines) (job : Job) where
  -- Stage 3. `GenerateDraft` is called for its effect; its error is logged.
  unfoldable pub draft :
      Email → Categorized → Summarized → Table StatusRow → Table StatusRow × List Call
  unfolding update_status contains_stage stages_of draft_tier should_skip_draft
  draft email cat sum t =
      if contains_stage (stages_of job.plan) drafting
      then (if should_skip_draft email cat sum then (t, []) else (
        update_status w job drafting no_message none t,
        to_drafter (draft_tier job.plan) ∷ [],
      ))
      else (t, [])

  -- Stage 2. A failure leaves no summary.
  unfoldable pub summarize_stage :
      Email → Table StatusRow → Table StatusRow × Summarized × List Call
  unfolding update_status contains_stage stages_of
  summarize_stage email t =
      if contains_stage (stages_of job.plan) summarizing
      then (
        update_status w job summarizing no_message none t,
        e.summarize email,
        to_summarizer ∷ [],
      )
      else (t, no_summary, [])

  -- What follows the categorization.
  unfoldable pub after_categorize : Email → Categorized → List Call → Table StatusRow → Run
  unfolding draft summarize_stage update_status
  after_categorize email cat calls t =
      let (t', sum, calls') = summarize_stage email t in
      let (t'', calls'') = draft email cat sum t' in
      record {
        statuses = update_status w job complete no_message none t'';
        ok = true;
        calls = calls ++ calls' ++ calls'';
      }

  unfoldable pub with_category : Email → Categorized → Table StatusRow → Run
  unfolding after_categorize update_status
  with_category email cat_failed t = record {
    statuses = update_status w job error categorize_message (some categorizing) t;
    ok = false;
    calls = to_categorizer ∷ [];
  }
  with_category email no_category t = after_categorize email no_category (to_categorizer ∷ []) t
  with_category email cat_opaque t = after_categorize email cat_opaque (to_categorizer ∷ []) t
  with_category email (category c) t = after_categorize email (category c) (to_categorizer ∷ []) t

  -- Stage 1.
  unfoldable pub with_email : Email → Table StatusRow → Run
  unfolding with_category after_categorize update_status contains_stage stages_of
  with_email email t =
      if contains_stage (stages_of job.plan) categorizing
      then with_category email (e.categorize email job.user_id)
          (update_status w job categorizing no_message none t)
      else after_categorize email no_category [] t

  unfoldable pub loaded : Option Email → Table StatusRow → Run
  unfolding with_email update_status
  loaded none t = record {
    statuses = update_status w job error load_message none t;
    ok = false;
    calls = [];
  }
  loaded (some email) t = with_email email t

  unfoldable pub process : Table StatusRow → Run
  unfolding loaded
  process t = loaded (e.load_email job.email_id) t
