-- ===== src/Orchestrator/Cron/Tests.antt =====
-- A scheduler that starts at minute 2000: the nightly batch was cut off and the email digest has
-- completed, both are overdue. A job takes a second, and the world counts the runs.
use regent_backend.Base.{
  ℕ, suc, ◌≤◌, ◌≡◌, refl, true, false, Option, none, some, [], ◌∷◌, ◌++◌, filter, arith,
}
use regent_backend.Orchestrator.Cron.Jobs.{
  JobType, email_poll, ai_queue, nightly_batch, email_digest, job_code, same_job, known,
  get_job_interval,
}
use regent_backend.Orchestrator.Cron.{
  completed, running, recoverable, JobRow, Cron, Writes, is_overdue, overdue_jobs, new_tickers,
  run_job, recover_each, recover_missed_jobs, idle, check_tickers, tick_loop, start_up, run,
}
use regent_backend.Orchestrator.Cron.Rows.{find_row}
use regent_backend.Orchestrator.Cron.Recovery.{
  all_written, Scheduled, recover_missed_jobs-Scheduled,
}
use regent_backend.Orchestrator.Cron.Loop.{run-ends}
use regent_backend.Orchestrator.Cron.Unrecovered.{runs, run-LeftOut}

abbrev one_second : JobType → ℕ → ℕ × (Option ℕ × ℕ)
one_second j n = (1000, (none, suc n))

abbrev digest_row : JobRow
digest_row = record {
  job_type = email_digest;
  status = completed;
  last_run = some 0;
  next_run = some 21600000;
  duration_ms = some 1000;
  error_message = none;
}

abbrev cut_off_row : JobRow
cut_off_row = record digest_row {
  job_type = nightly_batch;
  status = running;
  next_run = some 86400000;
}

abbrev overdue : Cron ℕ
overdue = record { rows = cut_off_row ∷ (digest_row ∷ []); now = 120000000; log = []; world = 0 }

recover_missed_jobs-Scheduled_example :
    ((recover_missed_jobs one_second true all_written overdue).log
      ≡ [] ++ filter known (overdue_jobs 120000000 overdue.rows))
    × Scheduled 120000000 email_digest (recover_missed_jobs one_second true all_written overdue)
unfolding find_row same_job job_code is_overdue recoverable known
recover_missed_jobs-Scheduled_example =
    recover_missed_jobs-Scheduled one_second overdue email_digest digest_row refl refl refl

recovered : overdue_jobs 120000000 overdue.rows ≡ email_digest ∷ []
unfolding overdue_jobs is_overdue recoverable
recovered = refl

abbrev lost : ℕ → ℕ → Writes
lost n m = record { status_written = false; result_written = false }

-- The poll and the queue take two seconds, and half a second is left.
run-ends_example :
    (t : Cron ℕ) × (run one_second 1001 120003500 true lost overdue ≡ some t) × (120003500 ≤ t.now)
unfolding start_up recover_missed_jobs recover_each run_job overdue_jobs is_overdue recoverable
    known job_code
run-ends_example = run-ends one_second 1001 120003500 true lost overdue (omega arith)

abbrev after : Cron ℕ
after = record overdue {
  now = 120003500;
  log = email_digest ∷ (email_poll ∷ (ai_queue ∷ []));
  world = 3;
}

run-after : run one_second 4 120003500 true lost overdue ≡ some after
unfolding run start_up recover_missed_jobs recover_each run_job overdue_jobs is_overdue recoverable
    known job_code new_tickers get_job_interval tick_loop check_tickers idle
run-after = refl

run-LeftOut_example : runs nightly_batch after ≡ runs nightly_batch overdue
unfolding same_job job_code recoverable get_job_interval
run-LeftOut_example =
    run-LeftOut one_second nightly_batch 4 120003500 true lost overdue after
      (λ e. refl, (λ e. absurd (ground (arith, e)), tt)) refl refl run-after (omega arith)
