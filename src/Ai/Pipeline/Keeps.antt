-- ===== src/Ai/Pipeline/Keeps.antt =====
-- What runs of the pipeline keep in the status rows, and what that means for reprocessing.
use regent_backend.Base.{
  ℕ, ◌<◌, ◌≡◌, refl, sym, ap, ◌∙◌, subst, inl, inr, Bool, false, Option, none, some, List, [], ◌∷◌,
  arith, ◌==◌, Bool-cases, ==_iff, Table,
}
use mathlib.Core.Option.{some-injective}
use regent_backend.Plan.{Plan}
use regent_backend.Ai.Queue.{Job}
use regent_backend.Ai.Pipeline.{
  Stage, categorizing, summarizing, drafting, complete, error, skipped, StatusRow, Writes, Message,
  stages_of, contains_stage, retries, upsert, update_status, Call, to_categorizer, Engines, draft,
  summarize_stage, after_categorize, with_category, loaded, process, no_message, load_message,
  categorize_message,
}
use regent_backend.Ai.Pipeline.Skip.{
  Email, Categorized, Summarized, cat_failed, no_category, cat_opaque, category, should_skip_draft,
}
use regent_backend.Ai.Pipeline.{stage_code}
use regent_backend.Ai.Pipeline.Outcome.{
  with_email-with_category, update_status-own, update_status-other,
}
use regent_backend.Ai.Pipeline.Recovery.{
  has_stage, reprocessed, accepted, rows_of, reprocess_skipped,
}

-- What every status write of a run keeps, the run keeps. A run never writes "skipped".
module _ (w : Writes) (e : Engines) (job : Job) (Keeps : Table StatusRow → Type 0)
    (step : (s : Stage) (msg : Message) (reason : Option Stage) (t : Table StatusRow)
      → stage_code s < stage_code skipped
      → Keeps t
      → Keeps (update_status w job s msg reason t)) where
  draft-Keeps :
      (email : Email) (cat : Categorized) (sum : Summarized) (t : Table StatusRow)
      → Keeps t
      → Keeps (draft w e job email cat sum t).0
  unfolding draft
  draft-Keeps email cat sum t k = elim (Bool-cases (contains_stage (stages_of job.plan) drafting)) [
    | inl y ↦ elim (Bool-cases (should_skip_draft email cat sum)) [
      | inl s ↦ rw (y, s) k
      | inr n ↦ rw (y, n) (step drafting no_message none t (omega arith) k)
    ]
    | inr n ↦ rw n k
  ]

  summarize_stage-Keeps :
      (email : Email) (t : Table StatusRow) → Keeps t → Keeps (summarize_stage w e job email t).0
  unfolding summarize_stage
  summarize_stage-Keeps email t k =
      elim (Bool-cases (contains_stage (stages_of job.plan) summarizing)) [
        | inl y ↦ rw y (step summarizing no_message none t (omega arith) k)
        | inr n ↦ rw n k
      ]

  after_categorize-Keeps :
      (email : Email) (cat : Categorized) (calls : List Call) (t : Table StatusRow)
      → Keeps t
      → Keeps (after_categorize w e job email cat calls t).statuses
  unfolding after_categorize
  after_categorize-Keeps email cat calls t k =
      let (t', sum, more) = summarize_stage w e job email t in
      step complete no_message none (draft w e job email cat sum t').0 (omega arith)
        (draft-Keeps email cat sum t' (summarize_stage-Keeps email t k))

  with_category-Keeps :
      (email : Email) (cat : Categorized) (t : Table StatusRow)
      → Keeps t
      → Keeps (with_category w e job email cat t).statuses
  unfolding with_category
  with_category-Keeps email cat_failed t k =
      step error categorize_message (some categorizing) t (omega arith) k
  with_category-Keeps email no_category t k =
      after_categorize-Keeps email no_category (to_categorizer ∷ []) t k
  with_category-Keeps email cat_opaque t k =
      after_categorize-Keeps email cat_opaque (to_categorizer ∷ []) t k
  with_category-Keeps email (category c) t k =
      after_categorize-Keeps email (category c) (to_categorizer ∷ []) t k

  loaded-Keeps :
      (o : Option Email) (t : Table StatusRow) → Keeps t → Keeps (loaded w e job o t).statuses
  unfolding loaded
  loaded-Keeps none t k = step error load_message none t (omega arith) k
  loaded-Keeps (some email) t k = rw (with_email-with_category w e job email t) (
      with_category-Keeps email (e.categorize email job.user_id)
        (update_status w job categorizing no_message none t)
        (step categorizing no_message none t (omega arith) k))

  process-Keeps : (t : Table StatusRow) → Keeps t → Keeps (process w e job t).statuses
  unfolding process
  process-Keeps t k = loaded-Keeps (e.load_email job.email_id) t k

-- The row of an email, with the plan and the start that it was made with.
abbrev pub KeepsRow : ℕ → StatusRow → Table StatusRow → Type 0
KeepsRow id row t =
    (row' : StatusRow) × (t id ≡ some row')
    × (row'.plan ≡ row.plan)
    × (row'.started_at ≡ row.started_at)

pub upsert-KeepsRow :
    (job : Job) (s : Stage) (msg : Message) (reason : Option Stage) (now : ℕ) (row : StatusRow)
    → ((upsert job s msg reason now (some row)).plan ≡ row.plan)
      × ((upsert job s msg reason now (some row)).started_at ≡ row.started_at)
      × ((upsert job s msg reason now (some row)).stage ≡ s)
      × ((upsert job s msg reason now (some row)).retry_count ≡ retries s row.retry_count)
unfolding upsert
upsert-KeepsRow job s msg reason now row = (refl, refl, refl, refl)

pub update_status-unsaved :
    (w : Writes) (job : Job) (s : Stage) (msg : Message) (reason : Option Stage)
    (t : Table StatusRow)
    → w.saved s ≡ false
    → update_status w job s msg reason t ≡ t
unfolding update_status
update_status-unsaved w job s msg reason t n = rw n refl

update_status-KeepsRow :
    (w : Writes) (job : Job) (row : StatusRow) (s : Stage) (msg : Message) (reason : Option Stage)
    (t : Table StatusRow)
    → KeepsRow job.email_id row t
    → KeepsRow job.email_id row (update_status w job s msg reason t)
update_status-KeepsRow w job row s msg reason t (r, found, p, q) = elim (Bool-cases (w.saved s)) [
  | inl y ↦
      let (p', q', stage, count) = upsert-KeepsRow job s msg reason (w.time s) r in
      (
        upsert job s msg reason (w.time s) (some r),
        update_status-own w job s msg reason t y
            ∙ ap (λ o. some (upsert job s msg reason (w.time s) o)) found,
        p' ∙ p,
        q' ∙ q,
      )
  | inr n ↦ rw (update_status-unsaved w job s msg reason t n) (r, found, p, q)
]

-- A run of an email that has a row, under whatever plan, leaves the plan of the row as it was, and
-- the row's start.
pub process-KeepsRow :
    (w : Writes) (e : Engines) (job : Job) (t : Table StatusRow) (row : StatusRow)
    → t job.email_id ≡ some row
    → KeepsRow job.email_id row (process w e job t).statuses
process-KeepsRow w e job t row found =
    process-Keeps w e job (KeepsRow job.email_id row)
      (λ s msg reason t' h. update_status-KeepsRow w job row s msg reason t') t
      (row, found, refl, refl)

-- No row is at the stage "skipped".
abbrev pub NeverSkipped : Table StatusRow → Type 0
NeverSkipped t =
    (id : ℕ) (row : StatusRow) → t id ≡ some row → stage_code row.stage < stage_code skipped

upsert-stage_code :
    (job : Job) (s : Stage) (msg : Message) (reason : Option Stage) (now : ℕ) (o : Option StatusRow)
    → stage_code (upsert job s msg reason now o).stage ≡ stage_code s
unfolding upsert
upsert-stage_code job s msg reason now none = refl
upsert-stage_code job s msg reason now (some row) = refl

update_status-NeverSkipped :
    (w : Writes) (job : Job) (s : Stage) (msg : Message) (reason : Option Stage)
    (t : Table StatusRow)
    → stage_code s < stage_code skipped
    → NeverSkipped t
    → NeverSkipped (update_status w job s msg reason t)
update_status-NeverSkipped w job s msg reason t h never id row found =
    elim (Bool-cases (w.saved s)) [
      | inl y ↦ elim (Bool-cases (id == job.email_id)) [
        | inl same ↦
            let at_job =
              subst (λ i. update_status w job s msg reason t i ≡ some row)
                ((==_iff id job.email_id).0 same) found in
            let written =
              some-injective (upsert job s msg reason (w.time s) (t job.email_id)) row
                (sym (update_status-own w job s msg reason t y) ∙ at_job) in
            subst (λ r. stage_code r.stage < stage_code skipped) written
              (subst (λ n. n < stage_code skipped)
                (sym (upsert-stage_code job s msg reason (w.time s) (t job.email_id))) h)
        | inr other ↦
            never id row
              (sym (update_status-other w job s msg reason t id (ground (arith, other))) ∙ found)
      ]
      | inr n ↦
          never id row
            (subst (λ u. u id ≡ some row) (update_status-unsaved w job s msg reason t n) found)
    ]

-- The runs of a history, each with its writes, engines and job.
abbrev pub History : Type 0
History = List (Writes × Engines × Job)

abbrev pub run_all : History → Table StatusRow → Table StatusRow
run_all [] t = t
run_all ((w, e, job) ∷ rest) t = run_all rest (process w e job t).statuses

run_all-NeverSkipped :
    (runs : History) (t : Table StatusRow) → NeverSkipped t → NeverSkipped (run_all runs t)
run_all-NeverSkipped [] t h = h
run_all-NeverSkipped ((w, e, job) ∷ rest) t h =
    run_all-NeverSkipped rest (process w e job t).statuses (
      process-Keeps w e job NeverSkipped
        (λ s msg reason t' l k. update_status-NeverSkipped w job s msg reason t' l k) t h)

reprocessed-none :
    (u : ℕ) (p : Plan) (id : ℕ) (o : Option StatusRow)
    → ((row : StatusRow) → o ≡ some row → stage_code row.stage < stage_code skipped)
    → reprocessed u p id o ≡ []
unfolding reprocessed has_stage
reprocessed-none u p id none h = refl
reprocessed-none u p id (some row) h = let below = h row refl in ground (arith, below)

rows_of-reprocessed :
    (u : ℕ) (p : Plan) (ids : List ℕ) (t : Table StatusRow)
    → NeverSkipped t
    → rows_of (reprocessed u p) ids t ≡ []
unfolding rows_of
rows_of-reprocessed u p [] t h = refl
rows_of-reprocessed u p (id ∷ ids) t h =
    rw (reprocessed-none u p id (t id) (h id), rows_of-reprocessed u p ids t h) refl

no_rows : NeverSkipped (λ id. none)
no_rows id row q = ground (arith, q)

-- After any runs, from no rows at all, `ReprocessSkipped` enqueues nothing: no run writes the stage
-- that it looks for, whatever the plan was.
pub reprocess_skipped-run_all :
    (ok : ℕ → Bool) (u : ℕ) (new_plan : Plan) (ids : List ℕ) (runs : History)
    → reprocess_skipped ok u new_plan ids (run_all runs (λ id. none)) ≡ []
unfolding reprocess_skipped accepted
reprocess_skipped-run_all ok u new_plan ids runs =
    rw
      (rows_of-reprocessed u new_plan ids (run_all runs (λ id. none))
        (run_all-NeverSkipped runs (λ id. none) no_rows))
      refl
