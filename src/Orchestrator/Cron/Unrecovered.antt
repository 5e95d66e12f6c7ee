-- ===== src/Orchestrator/Cron/Unrecovered.antt =====
-- A job whose row says that it failed, or that it runs, waits for its ticker.
use regent_backend.Base.{
  ℕ, zero, suc, ◌+◌, ◌≤◌, ◌<◌, ◌≡◌, refl, sym, ap, ◌∙◌, inl, inr, Bool, true, false, ◌&&◌, Option,
  none, some, List, [], ◌∷◌, map, arith, ltb, leb, Bool-cases, All, count, count-append,
  count-filter, count_mono, filter,
}
use regent_backend.Orchestrator.Cron.Jobs.{
  JobType, email_poll, ai_queue, jobs, same_job, same_job_eq, known, get_job_interval,
}
use regent_backend.Orchestrator.Cron.{
  JobRow, Cron, Writes, Ticker, recoverable, is_overdue, overdue_jobs, receive, new_tickers,
  run_job, recover_missed_jobs, idle, check_tickers, tick_loop, start_up, run,
}
use regent_backend.Orchestrator.Cron.Recovery.{recover_each-log}
use regent_backend.Orchestrator.Cron.Loop.{receive_later}
use regent_backend.Orchestrator.Cron.Steps.{
  now-run_job, check_tickers-fired, check_tickers_unfired, now-check_tickers, tick_loop_over,
  tick_loop_pass, tick_loop_fuel, now-tick_loop, now-start_up, now-idle,
}

-- The rows of the job are ones that the query of the recovery leaves out.
abbrev pub LeftOut : JobType → List JobRow → Type 0
LeftOut j rows = All (λ r. same_job r.job_type j ≡ true → recoverable r.status ≡ false) rows

-- How often a job was run.
abbrev pub runs : {W : Type 0} → JobType → Cron W → ℕ
runs j s = count (λ i. same_job i j) s.log

left_out :
    (now : ℕ) (o : Option ℕ) (b : Bool)
    → b ≡ false
    → elim o as (λ _. Bool) [ none ↦ false | some at ↦ b && ltb at now ] ≡ false
left_out now none b h = refl
left_out now (some at) b h = ap (λ c. c && ltb at now) h

late_other :
    (now : ℕ) (j : JobType) (r : JobRow)
    → (same_job r.job_type j ≡ true → recoverable r.status ≡ false)
    → is_overdue now r ≡ true
    → same_job r.job_type j ≡ false
unfolding is_overdue
late_other now j r h late = elim (Bool-cases (same_job r.job_type j)) [
  | inl same ↦
      (let early = left_out now r.next_run (recoverable r.status) (h same) in cc (early, late))
  | inr other ↦ other
]

overdue_jobs-LeftOut :
    (now : ℕ) (j : JobType) (rows : List JobRow)
    → LeftOut j rows
    → count (λ i. same_job i j) (overdue_jobs now rows) ≡ 0
unfolding overdue_jobs
overdue_jobs-LeftOut now j [] h = refl
overdue_jobs-LeftOut now j (r ∷ rest) (here, there) = elim (Bool-cases (is_overdue now r)) [
  | inl late ↦
      (let other : same_job r.job_type j ≡ false = late_other now j r here late in
        rw (late, other) (omega (arith, overdue_jobs-LeftOut now j rest there)))
  | inr early ↦ rw early (overdue_jobs-LeftOut now j rest there)
]

-- The tickers of the job are due at `bound` or later.
DueAt : JobType → ℕ → List Ticker → Type 0
DueAt j bound tickers = All (λ t. same_job t.job j ≡ true → bound ≤ t.due) tickers

new_tickers-DueAt :
    (now : ℕ) (j : JobType) (each : List JobType)
    → DueAt j
        (now + get_job_interval j)
        (map (λ i. record { job = i; due = now + get_job_interval i }) each)
unfolding DueAt
new_tickers-DueAt now j [] = tt
new_tickers-DueAt now j (i ∷ rest) = (
  λ same. (let e = ap get_job_interval (same_job_eq i j same) in omega (arith, e)),
  new_tickers-DueAt now j rest,
)

module _ {W : Type 0} (fn : JobType → W → ℕ × (Option ℕ × W)) where
  runs-run_job :
      (w : Writes) (i j : JobType) (s : Cron W)
      → same_job i j ≡ false
      → runs j (run_job fn w i s) ≡ runs j s
  unfolding run_job
  runs-run_job w i j s other =
      let both = count-append (λ k. same_job k j) s.log (i ∷ []) in ground (arith, both, other)

  runs-recover_missed_jobs :
      (read : Bool) (w : ℕ → Writes) (j : JobType) (s : Cron W)
      → LeftOut j s.rows
      → runs j (recover_missed_jobs fn read w s) ≡ runs j s
  unfolding recover_missed_jobs
  runs-recover_missed_jobs false w j s h = refl
  runs-recover_missed_jobs true w j s h =
      let overdue = overdue_jobs s.now s.rows in
      let p : JobType → Bool = λ k. same_job k j in
      let added = recover_each-log fn w overdue s in
      let both = count-append p s.log (filter known overdue) in
      let kept = count-filter p known overdue in
      let fewer = count_mono (λ k. p k && known k) p (λ k e. ground (arith, e)) overdue in
      omega (arith, ap (count p) added, both, kept, fewer, overdue_jobs-LeftOut s.now j s.rows h)

  runs-check_tickers :
      (bound : ℕ) (j : JobType) (w : ℕ → Writes) (tickers : List Ticker) (s : Cron W)
      → DueAt j bound tickers
      → (check_tickers fn w tickers s).1.1.now < bound
      → (runs j (check_tickers fn w tickers s).1.1 ≡ runs j s)
        × DueAt j bound (check_tickers fn w tickers s).0
  unfolding check_tickers DueAt receive
  runs-check_tickers bound j w [] s due lt = (refl, tt)
  runs-check_tickers bound j w (t ∷ rest) s (here, there) lt = elim (Bool-cases (leb t.due s.now)) [
    | inl fired ↦
        (let e = check_tickers-fired fn w t rest s fired in
          let s' = run_job fn (w 0) t.job s in
          let more =
            runs-check_tickers bound j (λ n. w (suc n)) rest s' there
              (omega (arith, lt, ap (λ p. p.1.1.now) e)) in
          let later = now-check_tickers fn (λ n. w (suc n)) rest s' in
          elim (Bool-cases (same_job t.job j)) [
            | inl same ↦ absurd (
                ground (
                  arith,
                  here same,
                  fired,
                  later,
                  now-run_job fn (w 0) t.job s,
                  lt,
                  ap (λ p. p.1.1.now) e,
                ))
            | inr other ↦ rw e (
              more.0 ∙ runs-run_job (w 0) t.job j s other,
              (λ same. (let le = here same in omega (arith, le, receive_later s.now t)), more.1),
            )
          ])
    | inr quiet ↦
        (let e = check_tickers_unfired fn w t rest s quiet in
          let more =
            runs-check_tickers bound j (λ n. w (suc n)) rest s there
              (omega (arith, lt, ap (λ p. p.1.1.now) e)) in
          rw e (more.0, (here, more.1)))
  ]

  runs-idle : (j : JobType) (fired : Bool) (s : Cron W) → runs j (idle fired s) ≡ runs j s
  unfolding idle
  runs-idle j true s = refl
  runs-idle j false s = refl

  -- A loop that ends before the ticker of the job is due does not run it.
  runs-tick_loop :
      (bound : ℕ) (j : JobType) (fuel stop : ℕ) (w : ℕ → ℕ → Writes) (tickers : List Ticker)
      (s t : Cron W)
      → DueAt j bound tickers
      → tick_loop fn fuel stop w tickers s ≡ some t
      → t.now < bound
      → runs j t ≡ runs j s
  runs-tick_loop bound j zero stop w tickers s t due h lt = elim (Bool-cases (leb stop s.now)) [
    | inl over ↦
        (let same : s ≡ t = cc (sym (tick_loop_over fn zero stop w tickers s over) ∙ h) in
          sym (ap (runs j) same))
    | inr before ↦ cc (sym (tick_loop_fuel fn stop w tickers s before) ∙ h)
  ]
  runs-tick_loop bound j (suc fuel) stop w tickers s t due h lt =
      elim (Bool-cases (leb stop s.now)) [
        | inl over ↦
            (let same : s ≡ t = cc (sym (tick_loop_over fn (suc fuel) stop w tickers s over) ∙ h) in
              sym (ap (runs j) same))
        | inr before ↦
            (let p = check_tickers fn (w 0) tickers s in
              let s' = idle p.1.0 p.1.1 in
              let rest = sym (tick_loop_pass fn fuel stop w tickers s before) ∙ h in
              let end = now-tick_loop fn fuel stop (λ n. w (suc n)) p.0 s' t rest in
              let pass =
                runs-check_tickers bound j (w 0) tickers s due
                  (omega (arith, end, lt, now-idle p.1.0 p.1.1)) in
              runs-tick_loop bound j fuel stop (λ n. w (suc n)) p.0 s' t pass.1 rest lt
              ∙ runs-idle j p.1.0 p.1.1
              ∙ pass.0)
      ]

  -- Take a job that `Run` does not run at its start, with a row that the recovery leaves out: its last
  -- run failed, or was cut off and is still marked as running. A scheduler that ends before the job's
  -- interval has passed does not run it, however overdue it was.
  pub run-LeftOut :
      (j : JobType) (fuel stop : ℕ) (read : Bool) (w : ℕ → ℕ → Writes) (s t : Cron W)
      → LeftOut j s.rows
      → same_job email_poll j ≡ false
      → same_job ai_queue j ≡ false
      → run fn fuel stop read w s ≡ some t
      → t.now < s.now + get_job_interval j
      → runs j t ≡ runs j s
  unfolding run start_up new_tickers
  run-LeftOut j fuel stop read w s t left not_poll not_queue h lt =
      let begun = start_up fn read w s in
      let late = now-start_up fn read w s in
      runs-tick_loop (begun.now + get_job_interval j) j fuel stop _ _ begun t
        (new_tickers-DueAt begun.now j jobs) h (omega (arith, lt, late))
      ∙ runs-run_job (w 1 1) ai_queue j _ not_queue
      ∙ runs-run_job (w 1 0) email_poll j _ not_poll
      ∙ runs-recover_missed_jobs read (w 0) j s left
