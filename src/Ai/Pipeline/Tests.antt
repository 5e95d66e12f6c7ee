-- ===== src/Ai/Pipeline/Tests.antt =====
-- The pipeline at concrete inputs.
use regent_backend.Base.{ℕ, ◌≡◌, refl, true, false, none, some, [], ◌∷◌, arith, ◌==◌, if◌then◌else◌}
use regent_backend.Plan.{Plan, free, estate}
use regent_backend.Ai.Queue.{Job}
use regent_backend.Ai.Pipeline.{
  categorizing, complete, error, StatusRow, Writes, Engines, process, categorize_message,
}
use regent_backend.Ai.Pipeline.Skip.{
  Email, cat_failed, category, action_required, should_skip_draft, contains_any, contains,
  is_skip_category, is_one_of, slice_of, skips_category,
}
use regent_backend.Ai.Pipeline.Outcome.{Reached, process-Reached}
use regent_backend.Ai.Pipeline.Calls.{expected_calls, process-expected_calls}
use regent_backend.Ai.Pipeline.Keeps.{run_all, reprocess_skipped-run_all}
use regent_backend.Ai.Pipeline.Retries.{run_job, run_job-exhausted}
use regent_backend.Ai.Pipeline.Recovery.{is_due, reprocess_skipped}

abbrev question : Email
question = record { id = 7; from_address = "ada@example.org"; direction = "inbound" }

abbrev newsletter : Email
newsletter = record { id = 8; from_address = "acme news <news@example.org>"; direction = "inbound" }

newsletter_skipped :
    should_skip_draft newsletter (category "personal") (action_required true) ≡ true
unfolding should_skip_draft contains_any contains
newsletter_skipped = refl

plural_skipped : should_skip_draft question (category "spams") (action_required true) ≡ true
unfolding should_skip_draft contains_any contains skips_category is_skip_category is_one_of slice_of
plural_skipped = refl

question_drafted : should_skip_draft question (category "personal") (action_required true) ≡ false
unfolding should_skip_draft contains_any contains skips_category is_skip_category is_one_of slice_of
question_drafted = refl

abbrev answering : Engines
answering = record {
  load_email = λ id. if id == 7 then some question else none;
  categorize = λ email user. category "personal";
  summarize = λ email. action_required true;
  generate_draft = λ email tier cat user. false;
}

abbrev failing : Engines
failing = record answering { categorize = λ email user. cat_failed }

abbrev all_saved : Writes
all_saved = record { saved = λ s. true; time = λ s. 100 }

abbrev job_of : ℕ → Plan → Job
job_of id p = record {
  email_id = id;
  user_id = 1;
  tenant_id = 1;
  plan = p;
  priority = 10;
  enqueued_at = 90;
}

process-Reached_example :
    ((process all_saved answering (job_of 7 estate) (λ id. none)).ok ≡ true)
    × Reached all_saved
        (job_of 7 estate)
        complete
        (process all_saved answering (job_of 7 estate) (λ id. none)).statuses
process-Reached_example =
    process-Reached all_saved answering (job_of 7 estate) (λ id. none) refl refl

process-expected_calls_example :
    (process all_saved answering (job_of 7 free) (λ id. none)).calls
    ≡ expected_calls all_saved answering (job_of 7 free) (some question)
process-expected_calls_example =
    process-expected_calls all_saved answering (job_of 7 free) (λ id. none)

abbrev errored : StatusRow
errored = record {
  user_id = 1;
  tenant_id = 1;
  plan = free;
  stage = error;
  started_at = 100;
  completed_at = some 100;
  retry_count = 1;
  error_message = categorize_message;
  skipped_reason = some categorizing;
}

reprocess_skipped-run_all_example :
    reprocess_skipped
      (λ id. true)
      1
      estate
      (7 ∷ [])
      (run_all ((all_saved, answering, job_of 7 free) ∷ []) (λ id. none))
    ≡ []
reprocess_skipped-run_all_example =
    reprocess_skipped-run_all (λ id. true) 1 estate (7 ∷ [])
      ((all_saved, answering, job_of 7 free) ∷ [])

run_job-exhausted_example :
    (row : StatusRow) × (run_job
        (job_of 7 free)
        ((all_saved, failing) ∷ (all_saved, failing) ∷ [])
        (λ id. some errored)
        7
      ≡ some row)
    × (is_due 1_000_000_000_000 row ≡ false)
run_job-exhausted_example =
    run_job-exhausted (job_of 7 free) ((all_saved, failing) ∷ (all_saved, failing) ∷ [])
      (λ id. some errored) 1 1_000_000_000_000 (errored, refl, refl, refl)
      ((refl, refl), ((refl, refl), tt)) (omega arith)
