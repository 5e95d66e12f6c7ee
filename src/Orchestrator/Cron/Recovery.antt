-- ===== src/Orchestrator/Cron/Recovery.antt =====
-- Recovery runs what was missed and schedules it anew.
use regent_backend.Base.{
  if_each, ℕ, suc, ◌+◌, ◌≤◌, ◌≡◌, refl, sym, ap, ◌∙◌, subst, ◌≢◌, inl, inr, true, false, Option,
  none, some, List, [], ◌∷◌, ◌++◌, arith, if◌then◌else◌, Bool-cases, count, filter,
}
use mathlib.Core.List.{append_assoc, append-nil}
use regent_backend.Orchestrator.Cron.Jobs.{JobType, same_job, same_job_eq, known, get_job_interval}
use regent_backend.Orchestrator.Cron.{
  running, JobRow, Cron, Writes, ended_as, run_job, is_overdue, overdue_jobs, recover_each,
  recover_missed_jobs,
}
use regent_backend.Orchestrator.Cron.Steps.{now-run_job}
use regent_backend.Orchestrator.Cron.Rows.{
  find_row, update_job_status-find_row, update_job_status-find_row_other,
  update_job_result-find_row, update_job_result-find_row_other,
}

-- Both writes reach the database.
abbrev pub all_written : ℕ → Writes
all_written n = record { status_written = true; result_written = true }

-- The job has a row that ended, and its time to run is an interval or more after `start`.
pub record Scheduled {W : Type 0} (start : ℕ) (j : JobType) (s : Cron W) : Type 0 where
  pub row : JobRow
  pub at : ℕ
  pub found : find_row j s.rows ≡ some row
  pub ended : row.status ≢ running
  pub next_run : row.next_run ≡ some at
  pub later : start + get_job_interval j ≤ at

ended_status : (o : Option ℕ) → ended_as o ≢ running
unfolding ended_as
ended_status none e = cc (e)
ended_status (some message) e = cc (e)

module _ {W : Type 0} (fn : JobType → W → ℕ × (Option ℕ × W)) where
  run_job-Scheduled :
      (start : ℕ) (j : JobType) (s : Cron W) (r : JobRow)
      → start ≤ s.now
      → find_row j s.rows ≡ some r
      → Scheduled start j (run_job fn (all_written 0) j s)
  unfolding run_job
  run_job-Scheduled start j s r le h =
      let marked = update_job_status-find_row j running none s.rows r h in
      let result = fn j s.world in
      record {
        row = _;
        at = s.now + result.0 + get_job_interval j;
        found = update_job_result-find_row (s.now + result.0) j _ result.0 result.1.0 _ _ marked;
        ended = ended_status result.1.0;
        next_run = refl;
        later = omega (arith, le);
      }

  -- The run of another job leaves the row.
  pub run_job-find_row_other :
      (w : Writes) (i j : JobType) (s : Cron W)
      → same_job i j ≡ false
      → find_row j (run_job fn w i s).rows ≡ find_row j s.rows
  unfolding run_job
  run_job-find_row_other w i j s other =
      let Kept : List JobRow → Type 0 = λ rows. find_row j rows ≡ find_row j s.rows in
      let status = update_job_status-find_row_other i j running none s.rows other in
      let marked = if_each Kept w.status_written _ _ status refl in
      let result = fn i s.world in
      let closed =
        update_job_result-find_row_other (s.now + result.0) i j (ended_as result.1.0) result.0
          result.1.0 _ other in
      if_each Kept w.result_written _ _ (closed ∙ marked) marked

  Scheduled-run_job :
      (start : ℕ) (i j : JobType) (s : Cron W)
      → start ≤ s.now
      → Scheduled start j s
      → Scheduled start j (run_job fn (all_written 0) i s)
  Scheduled-run_job start i j s le h = elim (Bool-cases (same_job i j)) [
    | inl same ↦
        (let again = run_job-Scheduled start j s h.row le h.found in
          subst (λ k. Scheduled start j (run_job fn (all_written 0) k s))
            (sym (same_job_eq i j same)) again)
    | inr other ↦ record {
      row = h.row;
      at = h.at;
      found = run_job-find_row_other (all_written 0) i j s other ∙ h.found;
      ended = h.ended;
      next_run = h.next_run;
      later = h.later;
    }
  ]

  Scheduled-recover_each :
      (start : ℕ) (j : JobType) (overdue : List JobType) (s : Cron W)
      → start ≤ s.now
      → Scheduled start j s
      → Scheduled start j (recover_each fn all_written overdue s)
  unfolding recover_each
  Scheduled-recover_each start j [] s le h = h
  Scheduled-recover_each start j (i ∷ rest) s le h = elim (Bool-cases (known i)) [
    | inl runs ↦ rw runs (
        Scheduled-recover_each start j rest (run_job fn (all_written 0) i s)
          (omega (arith, le, now-run_job fn (all_written 0) i s))
          (Scheduled-run_job start i j s le h))
    | inr skipped ↦ rw skipped (Scheduled-recover_each start j rest s le h)
  ]

  recover_each-Scheduled :
      (start : ℕ) (j : JobType) (overdue : List JobType) (s : Cron W) (r : JobRow)
      → known j ≡ true
      → start ≤ s.now
      → find_row j s.rows ≡ some r
      → 1 ≤ count (λ i. same_job i j) overdue
      → Scheduled start j (recover_each fn all_written overdue s)
  unfolding recover_each
  recover_each-Scheduled start j [] s r k le h listed = absurd (omega (arith, listed))
  recover_each-Scheduled start j (i ∷ rest) s r k le h listed =
      let later : start ≤ (run_job fn (all_written 0) i s).now =
        omega (arith, le, now-run_job fn (all_written 0) i s) in
      let t = run_job fn (all_written 0) i s in
      elim (Bool-cases (same_job i j)) [
        | inl same ↦
            (let runs = ap known (same_job_eq i j same) ∙ k in
              let done =
                subst (λ m. Scheduled start j (run_job fn (all_written 0) m s))
                  (sym (same_job_eq i j same)) (run_job-Scheduled start j s r le h) in
              rw runs (Scheduled-recover_each start j rest t later done))
        | inr other ↦
            (let more : 1 ≤ count (λ m. same_job m j) rest = ground (arith, listed, other) in
              let kept = run_job-find_row_other (all_written 0) i j s other ∙ h in
              elim (Bool-cases (known i)) [
                | inl runs ↦ rw runs (recover_each-Scheduled start j rest t r k later kept more)
                | inr skipped ↦ rw skipped (recover_each-Scheduled start j rest s r k le h more)
              ])
      ]

  overdue_jobs-count :
      (now : ℕ) (j : JobType) (rows : List JobRow) (r : JobRow)
      → find_row j rows ≡ some r
      → is_overdue now r ≡ true
      → 1 ≤ count (λ i. same_job i j) (overdue_jobs now rows)
  unfolding find_row overdue_jobs
  overdue_jobs-count now j [] r h late = cc (h)
  overdue_jobs-count now j (q ∷ rest) r h late = elim (Bool-cases (same_job q.job_type j)) [
    | inl mine ↦
        (let found : some q ≡ some r =
            ap (λ b. if b then some q else find_row j rest) (sym mine) ∙ h in
          let q_late : is_overdue now q ≡ true =
            ap (λ o. elim o [ none ↦ true | some x ↦ is_overdue now x ]) found ∙ late in
          rw (q_late, mine) (omega arith))
    | inr other ↦
        (let below = ap (λ b. if b then some q else find_row j rest) (sym other) ∙ h in
          let more = overdue_jobs-count now j rest r below late in
          elim (Bool-cases (is_overdue now q)) [
            | inl q_late ↦ rw q_late (omega (arith, more))
            | inr early ↦ rw early more
          ])
  ]

  pub recover_each-log :
      (w : ℕ → Writes) (overdue : List JobType) (s : Cron W)
      → (recover_each fn w overdue s).log ≡ s.log ++ filter known overdue
  unfolding recover_each run_job
  recover_each-log w [] s = sym (append-nil s.log)
  recover_each-log w (i ∷ rest) s = elim (Bool-cases (known i)) [
    | inl runs ↦ rw runs (
        recover_each-log (λ n. w (suc n)) rest (run_job fn (w 0) i s)
        ∙ append_assoc s.log (i ∷ []) (filter known rest))
    | inr skipped ↦ rw skipped (recover_each-log (λ n. w (suc n)) rest s)
  ]

  -- Where the query and the writes succeed, recovery runs the known jobs whose rows are overdue and
  -- pending or completed, each row once and in the order of the rows. A job of such a row then has a
  -- row that has ended, and is due an interval or more after recovery began.
  pub recover_missed_jobs-Scheduled :
      (s : Cron W) (j : JobType) (r : JobRow)
      → find_row j s.rows ≡ some r
      → is_overdue s.now r ≡ true
      → known j ≡ true
      → ((recover_missed_jobs fn true all_written s).log
          ≡ s.log ++ filter known (overdue_jobs s.now s.rows))
        × Scheduled s.now j (recover_missed_jobs fn true all_written s)
  unfolding recover_missed_jobs
  recover_missed_jobs-Scheduled s j r h late k =
      let overdue = overdue_jobs s.now s.rows in
      (
        recover_each-log all_written overdue s,
        recover_each-Scheduled s.now j overdue s r k (omega arith) h
            (overdue_jobs-count s.now j s.rows r h late),
      )
