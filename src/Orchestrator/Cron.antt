-- ===== src/Orchestrator/Cron.antt =====
-- The cron scheduler of a user (internal/orchestrator/cron.go): the rows of cron_jobs, `runJob`, the
-- recovery of missed jobs, and the loop over the tickers. Times are in milliseconds. What a job does
-- is a parameter of the model: how long it takes, its error if any, and its effect on the world.
pub mod Jobs
pub mod Rows
pub mod Steps
pub mod Recovery
pub mod Unrecovered
pub mod Loop
mod Tests
use regent_backend.Base.{
  ℕ, zero, suc, ◌+◌, ◌-◌, ◌*◌, ◌/◌, ◌%◌, ◌≤◌, ◌<◌, min, max, ◌≡◌, refl, sym, ap, ◌∙◌, subst, ◌≢◌,
  ◌↔◌, ◌⊎◌, inl, inr, Bool, true, false, ◌&&◌, ◌||◌, not, Option, none, some, List, [], ◌∷◌, ◌++◌,
  map, arith, ltb, leb, ◌==◌, if◌then◌else◌, Bool-cases, Option-cases, All, All-append, length,
  ltb→lt, lt→ltb, leb→le, ==_iff, get_elem?, take, drop, length-take, length-append, count,
  count-append, count-split, count-filter, count-filter_one, count_mono, filter,
}
use regent_backend.Orchestrator.Cron.Jobs.{
  JobType, email_poll, ai_queue, known, same_job, get_job_interval, jobs,
}

pub data JobStatus : Type 0 where
  pending running completed failed : JobStatus

pub record JobRow : Type 0 where
  pub job_type : JobType
  pub status : JobStatus
  pub last_run : Option ℕ
  pub next_run : Option ℕ
  pub duration_ms : Option ℕ
  pub error_message : Option ℕ

-- INSERT … ON CONFLICT (user_id, job_type) DO UPDATE.
unfoldable pub upsert : JobRow → (JobRow → JobRow) → List JobRow → List JobRow
upsert fresh change [] = fresh ∷ []
upsert fresh change (r ∷ rest) =
    let more = upsert fresh change rest in
    if same_job r.job_type fresh.job_type then change r ∷ rest else r ∷ more

unfoldable pub update_job_status : JobType → JobStatus → Option ℕ → List JobRow → List JobRow
update_job_status j status message rows =
    upsert
      (record {
        job_type = j;
        status = status;
        last_run = none;
        next_run = none;
        duration_ms = none;
        error_message = message;
      })
      (λ r. record r { status = status; error_message = message }) rows

unfoldable pub update_job_result :
    (now : ℕ) → JobType → JobStatus → (duration : ℕ) → Option ℕ → List JobRow → List JobRow
update_job_result now j status duration message rows =
    upsert
      (record {
        job_type = j;
        status = status;
        last_run = some now;
        next_run = none;
        duration_ms = some duration;
        error_message = message;
      })
      (λ r. record r {
        status = status;
        last_run = some now;
        next_run = some (now + get_job_interval j);
        duration_ms = some duration;
        error_message = message;
      })
      rows

-- The status of a job that ended, from its error.
unfoldable pub ended_as : Option ℕ → JobStatus
ended_as none = completed
ended_as (some message) = failed

-- The scheduler's surroundings. `log` is the jobs that were run, oldest first.
pub record Cron (W : Type 0) : Type 0 where
  pub rows : List JobRow
  pub now : ℕ
  pub log : List JobType
  pub world : W

-- Which of the two writes of `runJob` reach the database.
pub record Writes : Type 0 where
  pub status_written : Bool
  pub result_written : Bool

-- The rows that the query of `recoverMissedJobs` selects.
unfoldable pub recoverable : JobStatus → Bool
recoverable pending = true
recoverable completed = true
recoverable running = false
recoverable failed = false

unfoldable pub is_overdue : ℕ → JobRow → Bool
is_overdue now r = elim r.next_run [ none ↦ false | some at ↦ recoverable r.status && ltb at now ]

unfoldable pub overdue_jobs : ℕ → List JobRow → List JobType
overdue_jobs now rows = map (λ r. r.job_type) (filter (is_overdue now) rows)

pub record Ticker : Type 0 where
  pub job : JobType
  pub due : ℕ

-- A ticker keeps at most one tick; after it is received, the ticks that were due in between are lost.
unfoldable pub receive : ℕ → Ticker → Ticker
receive now t =
    let period = get_job_interval t.job in
    record t { due = t.due + period * suc ((now - t.due) / period) }

unfoldable pub new_tickers : ℕ → List Ticker
new_tickers now = map (λ j. record { job = j; due = now + get_job_interval j }) jobs

-- The pause after a pass in which nothing fired.
unfoldable pub idle : {W : Type 0} → Bool → Cron W → Cron W
idle fired s = if fired then s else record s { now = s.now + 500 }

module _ {W : Type 0} (fn : JobType → W → ℕ × (Option ℕ × W)) where
  unfoldable pub run_job : Writes → JobType → Cron W → Cron W
  run_job w j s =
      let marked = if w.status_written then update_job_status j running none s.rows else s.rows in
      let result = fn j s.world in
      let now = s.now + result.0 in
      let closed = update_job_result now j (ended_as result.1.0) result.0 result.1.0 marked in
      record {
        rows = if w.result_written then closed else marked;
        now = now;
        log = s.log ++ (j ∷ []);
        world = result.1.1;
      }

  -- The loop of `recoverMissedJobs`; the n-th run has the n-th of the writes.
  unfoldable pub recover_each : (ℕ → Writes) → List JobType → Cron W → Cron W
  recover_each w [] s = s
  recover_each w (j ∷ rest) s =
      let skipped = recover_each (λ n. w (suc n)) rest s in
      let ran = recover_each (λ n. w (suc n)) rest (run_job (w 0) j s) in
      if known j then ran else skipped

  -- `read` says whether the query succeeds.
  unfoldable pub recover_missed_jobs : (read : Bool) → (ℕ → Writes) → Cron W → Cron W
  recover_missed_jobs read w s = if read then recover_each w (overdue_jobs s.now s.rows) s else s

  -- One pass over the tickers: those left, whether one had fired, and the state.
  unfoldable pub check_tickers : (ℕ → Writes) → List Ticker → Cron W → List Ticker × (Bool × Cron W)
  check_tickers w [] s = ([], (false, s))
  check_tickers w (t ∷ rest) s =
      let quiet = check_tickers (λ n. w (suc n)) rest s in
      let busy = check_tickers (λ n. w (suc n)) rest (run_job (w 0) t.job s) in
      if leb t.due s.now
      then (receive s.now t ∷ busy.0, (true, busy.1.1))
      else (t ∷ quiet.0, (quiet.1.0, quiet.1.1))

  -- The loop of `Run`, until the context ends at the time `stop`; `none` where the fuel does not do.
  unfoldable pub tick_loop :
      (fuel stop : ℕ) → (ℕ → ℕ → Writes) → List Ticker → Cron W → Option (Cron W)
  tick_loop zero stop w tickers s = if leb stop s.now then some s else none
  tick_loop (suc fuel) stop w tickers s =
      let pass = check_tickers (w 0) tickers s in
      let rest = tick_loop fuel stop (λ n. w (suc n)) pass.0 (idle pass.1.0 pass.1.1) in
      if leb stop s.now then some s else rest

  unfoldable pub start_up : (read : Bool) → (ℕ → ℕ → Writes) → Cron W → Cron W
  start_up read w s =
      run_job (w 1 1) ai_queue (run_job (w 1 0) email_poll (recover_missed_jobs read (w 0) s))

  -- `Run`.
  unfoldable pub run : (fuel stop : ℕ) → (read : Bool) → (ℕ → ℕ → Writes) → Cron W → Option (Cron W)
  run fuel stop read w s =
      let begun = start_up read w s in
      tick_loop fuel stop (λ n. w (suc (suc n))) (new_tickers begun.now) begun
