-- ===== src/Ai/Pipeline/Retries.antt =====
-- How often the AI processing job of internal/orchestrator/cron.go takes an email up again.
use regent_backend.Base.{
  ℕ, ◌+◌, ◌≤◌, ◌<◌, ◌≡◌, refl, ap, ◌∙◌, subst, inl, inr, true, false, Option, none, some, List, [],
  ◌∷◌, arith, Bool-cases, All, length, Table,
}
use mathlib.Core.Bool.{true≢false}
use regent_backend.Ai.Queue.{Job}
use regent_backend.Ai.Pipeline.{
  Stage, categorizing, error, StatusRow, Writes, Message, retries, upsert, update_status, Engines,
  with_category, loaded, process, no_message, load_message, categorize_message,
}
use regent_backend.Ai.Pipeline.Skip.{
  Email, Categorized, cat_failed, no_category, cat_opaque, category,
}
use regent_backend.Ai.Pipeline.{stage_code}
use regent_backend.Ai.Pipeline.Outcome.{
  categorizes, loads, with_email-with_category, update_status-own,
}
use regent_backend.Ai.Pipeline.Recovery.{has_stage, is_due, ten_minutes}
use regent_backend.Ai.Pipeline.Keeps.{upsert-KeepsRow, update_status-unsaved}

-- A run that loads nothing, or whose categorization fails, with the status saved: one retry more.
module _ (job : Job) where
  -- The row's retries.
  abbrev pub HasRetries : ℕ → Table StatusRow → Type 0
  HasRetries n t = (row : StatusRow) × (t job.email_id ≡ some row) × (row.retry_count ≡ n)

  update_status-HasRetries :
      (w : Writes) (s : Stage) (msg : Message) (reason : Option Stage) (t : Table StatusRow) (n : ℕ)
      → retries s n ≡ n
      → HasRetries n t
      → HasRetries n (update_status w job s msg reason t)
  update_status-HasRetries w s msg reason t n same (row, found, q) = elim (Bool-cases (w.saved s)) [
    | inl y ↦
        let (p', q', stage, count) = upsert-KeepsRow job s msg reason (w.time s) row in
        (
          upsert job s msg reason (w.time s) (some row),
          update_status-own w job s msg reason t y
              ∙ ap (λ o. some (upsert job s msg reason (w.time s) o)) found,
          count ∙ ap (retries s) q ∙ same,
        )
    | inr n ↦ rw (update_status-unsaved w job s msg reason t n) (row, found, q)
  ]

  -- The row after a saved error.
  abbrev pub IsErrored : ℕ → Table StatusRow → Type 0
  IsErrored n t =
      (row : StatusRow) × (t job.email_id ≡ some row) × (row.retry_count ≡ n) × (row.stage ≡ error)

  update_status-IsErrored :
      (w : Writes) (msg : Message) (reason : Option Stage) (t : Table StatusRow) (n : ℕ)
      → w.saved error ≡ true
      → HasRetries n t
      → IsErrored (n + 1) (update_status w job error msg reason t)
  unfolding retries
  update_status-IsErrored w msg reason t n y (row, found, q) =
      let (p', q', stage, count) = upsert-KeepsRow job error msg reason (w.time error) row in
      (
        upsert job error msg reason (w.time error) (some row),
        update_status-own w job error msg reason t y
            ∙ ap (λ o. some (upsert job error msg reason (w.time error) o)) found,
        count ∙ ap (λ m. m + 1) q,
        stage,
      )

  failing :
      (w : Writes) (e : Engines) (o : Option Email) (t : Table StatusRow) (n : ℕ)
      → w.saved error ≡ true
      → loads e job o ≡ false
      → HasRetries n t
      → IsErrored (n + 1) (loaded w e job o t).statuses
  unfolding loaded
  failing w e none t n y h r = update_status-IsErrored w load_message none t n y r
  failing w e (some email) t n y h r =
      rw (with_email-with_category w e job email t)
        (failing_category (e.categorize email job.user_id) h)
    where
      failing_category :
          (cat : Categorized)
          → categorizes cat ≡ false
          → IsErrored
              (n + 1)
              (with_category w e job email cat
                (update_status w job categorizing no_message none t)).statuses
      failing_category cat_failed q =
          update_status-IsErrored w categorize_message (some categorizing)
            (update_status w job categorizing no_message none t) n y
            (update_status-HasRetries w categorizing no_message none t n refl r)
      failing_category no_category q = absurd (true≢false q)
      failing_category cat_opaque q = absurd (true≢false q)
      failing_category (category c) q = absurd (true≢false q)

  process-IsErrored :
      (w : Writes) (e : Engines) (t : Table StatusRow) (n : ℕ)
      → w.saved error ≡ true
      → loads e job (e.load_email job.email_id) ≡ false
      → HasRetries n t
      → IsErrored (n + 1) (process w e job t).statuses
  unfolding process
  process-IsErrored w e t n y h r = failing w e (e.load_email job.email_id) t n y h r

  -- The runs of the job.
  abbrev pub run_job : List (Writes × Engines) → Table StatusRow → Table StatusRow
  run_job [] t = t
  run_job ((w, e) ∷ rest) t = run_job rest (process w e job t).statuses

  abbrev pub Fails : Writes × Engines → Type 0
  Fails (w, e) = (w.saved error ≡ true) × (loads e job (e.load_email job.email_id) ≡ false)

  run_job-IsErrored :
      (runs : List (Writes × Engines)) (t : Table StatusRow) (n : ℕ)
      → All Fails runs
      → IsErrored n t
      → IsErrored (n + length runs) (run_job runs t)
  run_job-IsErrored [] t n h r = subst (λ m. IsErrored m t) (omega arith) r
  run_job-IsErrored ((w, e) ∷ rest) t n ((y, h), hs) (row, found, q, s) =
      subst (λ m. IsErrored m (run_job rest (process w e job t).statuses)) (omega arith)
        (run_job-IsErrored rest (process w e job t).statuses (n + 1) hs
          (process-IsErrored w e t n y h (row, found, q)))

  exhausted :
      (now : ℕ) (row : StatusRow) → row.stage ≡ error → 3 ≤ row.retry_count → is_due now row ≡ false
  unfolding is_due has_stage
  exhausted now row s h = ground (arith, ap stage_code s, h)

  -- Once an email's row has n retries, 3 - n further runs that fail with the error saved end the
  -- retries: no later look of the AI processing job, at any time, takes the email up.
  pub run_job-exhausted :
      (runs : List (Writes × Engines)) (t : Table StatusRow) (n now : ℕ)
      → IsErrored n t
      → All Fails runs
      → 3 ≤ n + length runs
      → (row : StatusRow) × (run_job runs t job.email_id ≡ some row) × (is_due now row ≡ false)
  run_job-exhausted runs t n now r fails enough =
      let (row, found, q, s) = run_job-IsErrored runs t n fails r in
      (row, found, exhausted now row s (omega (arith, q, enough)))

-- A new run of an email whose first run began more than ten minutes ago looks stale as soon as it
-- starts: the AI processing job takes the email up again while it runs.
pub restarted-is_due :
    (w : Writes) (job : Job) (t : Table StatusRow) (row : StatusRow) (now : ℕ)
    → t job.email_id ≡ some row
    → w.saved categorizing ≡ true
    → row.started_at + ten_minutes < now
    → (row' : StatusRow) × (update_status w job categorizing no_message none t job.email_id
        ≡ some row')
      × (is_due now row' ≡ true)
unfolding is_due has_stage
restarted-is_due w job t row now found y late =
    let (p, q, stage, count) =
      upsert-KeepsRow job categorizing no_message none (w.time categorizing) row in
    (
      upsert job categorizing no_message none (w.time categorizing) (some row),
      update_status-own w job categorizing no_message none t y
          ∙ ap (λ o. some (upsert job categorizing no_message none (w.time categorizing) o)) found,
      ground (arith, ap stage_code stage, q, late),
    )
