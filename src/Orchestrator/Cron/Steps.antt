-- ===== src/Orchestrator/Cron/Steps.antt =====
-- The steps of the scheduler: what a pass comes to in each case, and that time does not go back.
use regent_backend.Base.{
  ℕ, zero, suc, ◌≤◌, ◌≡◌, refl, sym, ap, ◌∙◌, inl, inr, Bool, true, false, Option, none, some, List,
  [], ◌∷◌, arith, leb, Bool-cases,
}
use regent_backend.Orchestrator.Cron.Jobs.{JobType, email_poll, ai_queue, known}
use regent_backend.Orchestrator.Cron.{
  Cron, Writes, Ticker, overdue_jobs, receive, run_job, recover_each, recover_missed_jobs, idle,
  check_tickers, tick_loop, start_up,
}

pub now-idle : {W : Type 0} (fired : Bool) (s : Cron W) → s.now ≤ (idle fired s).now
unfolding idle
now-idle fired s = ground arith

module _ {W : Type 0} (fn : JobType → W → ℕ × (Option ℕ × W)) where
  pub now-run_job : (w : Writes) (j : JobType) (s : Cron W) → s.now ≤ (run_job fn w j s).now
  unfolding run_job
  now-run_job w j s = omega arith

  -- A pass where the first ticker has fired, and where it has not.
  pub check_tickers-fired :
      (w : ℕ → Writes) (t : Ticker) (rest : List Ticker) (s : Cron W)
      → leb t.due s.now ≡ true
      → check_tickers fn w (t ∷ rest) s ≡ (
        receive s.now t ∷ (check_tickers fn (λ n. w (suc n)) rest (run_job fn (w 0) t.job s)).0,
        (true, (check_tickers fn (λ n. w (suc n)) rest (run_job fn (w 0) t.job s)).1.1),
      )
  unfolding check_tickers
  check_tickers-fired w t rest s fired = rw fired refl

  pub check_tickers_unfired :
      (w : ℕ → Writes) (t : Ticker) (rest : List Ticker) (s : Cron W)
      → leb t.due s.now ≡ false
      → check_tickers fn w (t ∷ rest) s ≡ (
        t ∷ (check_tickers fn (λ n. w (suc n)) rest s).0,
        (check_tickers fn (λ n. w (suc n)) rest s).1,
      )
  unfolding check_tickers
  check_tickers_unfired w t rest s quiet = rw quiet refl

  pub now-check_tickers :
      (w : ℕ → Writes) (tickers : List Ticker) (s : Cron W)
      → s.now ≤ (check_tickers fn w tickers s).1.1.now
  unfolding check_tickers
  now-check_tickers w [] s = omega arith
  now-check_tickers w (t ∷ rest) s = elim (Bool-cases (leb t.due s.now)) [
    | inl fired ↦ rw (check_tickers-fired w t rest s fired) (
        omega (
          arith,
          now-run_job (w 0) t.job s,
          now-check_tickers (λ n. w (suc n)) rest (run_job fn (w 0) t.job s),
        ))
    | inr quiet ↦
        rw (check_tickers_unfired w t rest s quiet) (now-check_tickers (λ n. w (suc n)) rest s)
  ]

  pub tick_loop_over :
      (fuel stop : ℕ) (w : ℕ → ℕ → Writes) (tickers : List Ticker) (s : Cron W)
      → leb stop s.now ≡ true
      → tick_loop fn fuel stop w tickers s ≡ some s
  unfolding tick_loop
  tick_loop_over zero stop w tickers s over = rw over refl
  tick_loop_over (suc fuel) stop w tickers s over = rw over refl

  pub tick_loop_pass :
      (fuel stop : ℕ) (w : ℕ → ℕ → Writes) (tickers : List Ticker) (s : Cron W)
      → leb stop s.now ≡ false
      → tick_loop fn (suc fuel) stop w tickers s
        ≡ tick_loop fn fuel stop
            (λ n. w (suc n))
            (check_tickers fn (w 0) tickers s).0
            (idle (check_tickers fn (w 0) tickers s).1.0 (check_tickers fn (w 0) tickers s).1.1)
  unfolding tick_loop
  tick_loop_pass fuel stop w tickers s before = rw before refl

  pub tick_loop_fuel :
      (stop : ℕ) (w : ℕ → ℕ → Writes) (tickers : List Ticker) (s : Cron W)
      → leb stop s.now ≡ false
      → tick_loop fn zero stop w tickers s ≡ none
  unfolding tick_loop
  tick_loop_fuel stop w tickers s before = rw before refl

  now-recover_each :
      (w : ℕ → Writes) (overdue : List JobType) (s : Cron W)
      → s.now ≤ (recover_each fn w overdue s).now
  unfolding recover_each
  now-recover_each w [] s = omega arith
  now-recover_each w (i ∷ rest) s = elim (Bool-cases (known i)) [
    | inl found ↦ rw found (
        omega (
          arith,
          now-run_job (w 0) i s,
          now-recover_each (λ n. w (suc n)) rest (run_job fn (w 0) i s),
        ))
    | inr skipped ↦ rw skipped (now-recover_each (λ n. w (suc n)) rest s)
  ]

  pub now-start_up :
      (read : Bool) (w : ℕ → ℕ → Writes) (s : Cron W) → s.now ≤ (start_up fn read w s).now
  unfolding start_up recover_missed_jobs
  now-start_up read w s =
      let recovered = recover_missed_jobs fn read (w 0) s in
      let polled = run_job fn (w 1 0) email_poll recovered in
      ground (
        arith,
        now-recover_each (w 0) (overdue_jobs s.now s.rows) s,
        now-run_job (w 1 0) email_poll recovered,
        now-run_job (w 1 1) ai_queue polled,
      )

  pub now-tick_loop :
      (fuel stop : ℕ) (w : ℕ → ℕ → Writes) (tickers : List Ticker) (s t : Cron W)
      → tick_loop fn fuel stop w tickers s ≡ some t
      → s.now ≤ t.now
  now-tick_loop zero stop w tickers s t h = elim (Bool-cases (leb stop s.now)) [
    | inl over ↦
        (let same : s ≡ t = cc (sym (tick_loop_over zero stop w tickers s over) ∙ h) in
          omega (arith, ap (λ x. x.now) same))
    | inr before ↦ cc (sym (tick_loop_fuel stop w tickers s before) ∙ h)
  ]
  now-tick_loop (suc fuel) stop w tickers s t h = elim (Bool-cases (leb stop s.now)) [
    | inl over ↦
        (let same : s ≡ t = cc (sym (tick_loop_over (suc fuel) stop w tickers s over) ∙ h) in
          omega (arith, ap (λ x. x.now) same))
    | inr before ↦
        (let p = check_tickers fn (w 0) tickers s in
          let rest = sym (tick_loop_pass fuel stop w tickers s before) ∙ h in
          omega (
            arith,
            now-check_tickers (w 0) tickers s,
            now-idle p.1.0 p.1.1,
            now-tick_loop fuel stop (λ n. w (suc n)) p.0 (idle p.1.0 p.1.1) t rest,
          ))
  ]
