-- ===== src/Orchestrator/Cron/Loop.antt =====
-- The loop over the tickers comes to its end.
use regent_backend.Base.{
  ℕ, zero, suc, ◌+◌, ◌-◌, ◌*◌, ◌/◌, ◌%◌, ◌≤◌, ◌<◌, ◌≡◌, refl, sym, ap, subst, ◌⊎◌, inl, inr, Bool,
  true, false, Option, some, List, [], ◌∷◌, arith, leb, Bool-cases, All,
}
use native.Mathlib.Nat.{div-add-mod, mod-lt, mul-suc}
use regent_backend.Orchestrator.Cron.Jobs.{JobType, get_job_interval, get_job_interval-bound}
use regent_backend.Orchestrator.Cron.{
  Cron, Writes, Ticker, receive, run_job, idle, check_tickers, tick_loop, start_up, run,
}
use regent_backend.Orchestrator.Cron.Steps.{
  now-run_job, check_tickers-fired, check_tickers_unfired, now-check_tickers,
}

-- No ticker has fired.
Fresh : ℕ → List Ticker → Type 0
Fresh now tickers = All (λ t. now < t.due) tickers

receive-due : (now : ℕ) (t : Ticker) → now < (receive now t).due
unfolding receive
receive-due now t =
    let period = get_job_interval t.job in
    let passed = now - t.due in
    let whole = div-add-mod passed period in
    let part : passed % period < period =
      mod-lt passed (omega (arith, get_job_interval-bound t.job)) in
    omega (arith, whole, part, mul-suc period (passed / period))

-- A tick that is received later moves the ticker on.
pub receive_later : (now : ℕ) (t : Ticker) → t.due ≤ (receive now t).due
unfolding receive
receive_later now t = omega arith

module _ {W : Type 0} (fn : JobType → W → ℕ × (Option ℕ × W)) where
  -- A pass that takes no time leaves no ticker that has fired.
  check_tickers-Fresh :
      (now : ℕ) (w : ℕ → Writes) (tickers : List Ticker) (s : Cron W)
      → now ≤ s.now
      → (check_tickers fn w tickers s).1.1.now ≤ now
      → Fresh now (check_tickers fn w tickers s).0
  unfolding Fresh check_tickers
  check_tickers-Fresh now w [] s le h = tt
  check_tickers-Fresh now w (t ∷ rest) s le h = elim (Bool-cases (leb t.due s.now)) [
    | inl fired ↦
        (let e = check_tickers-fired fn w t rest s fired in
          let s' = run_job fn (w 0) t.job s in
          let end = ap (λ p. p.1.1.now) e in
          rw e (
            omega (arith, le, receive-due s.now t),
            check_tickers-Fresh now (λ n. w (suc n)) rest s'
                (omega (arith, le, now-run_job fn (w 0) t.job s)) (omega (arith, h, end)),
          ))
    | inr quiet ↦
        (let e = check_tickers_unfired fn w t rest s quiet in
          let end = ap (λ p. p.1.1.now) e in
          rw e (
            ground (arith, quiet, le, h, end, now-check_tickers fn (λ n. w (suc n)) rest s),
            check_tickers-Fresh now (λ n. w (suc n)) rest s le (omega (arith, h, end)),
          ))
  ]

  check_tickers-quiet :
      (w : ℕ → Writes) (tickers : List Ticker) (s : Cron W)
      → Fresh s.now tickers
      → check_tickers fn w tickers s ≡ (tickers, (false, s))
  unfolding check_tickers Fresh
  check_tickers-quiet w [] s fresh = refl
  check_tickers-quiet w (t ∷ rest) s (here, there) =
      let quiet : leb t.due s.now ≡ false = ground (arith, here) in
      rw (quiet, check_tickers-quiet (λ n. w (suc n)) rest s there) refl

  -- The passes that are left: one more where a ticker may have fired.
  Enough : (fuel stop : ℕ) → List Ticker → Cron W → Type 0
  Enough fuel stop tickers s =
      (2 * (stop - s.now) + 1 ≤ fuel) ⊎ (Fresh s.now tickers × (2 * (stop - s.now) ≤ fuel))

  -- After a pass.
  Enough-pass :
      (fuel stop : ℕ) (w : ℕ → Writes) (tickers : List Ticker) (s : Cron W)
      → s.now < stop
      → Enough (suc fuel) stop tickers s
      → Enough fuel stop
          (check_tickers fn w tickers s).0
          (idle (check_tickers fn w tickers s).1.0 (check_tickers fn w tickers s).1.1)
  unfolding Enough idle
  Enough-pass fuel stop w tickers s lt (inr (fresh, h)) =
      rw (check_tickers-quiet w tickers s fresh) (inl (omega (arith, lt, h)))
  Enough-pass fuel stop w tickers s lt (inl h) =
      let p = check_tickers fn w tickers s in
      let later = now-check_tickers fn w tickers s in
      elim (Bool-cases p.1.0) [
        | inr none_fired ↦ rw none_fired (inl (omega (arith, lt, h, later)))
        | inl fired ↦ rw fired (elim (Bool-cases (leb p.1.1.now s.now)) [
          | inl at_once ↦
              (let same : p.1.1.now ≡ s.now = ground (arith, at_once, later) in
                let fresh =
                  check_tickers-Fresh s.now w tickers s (omega arith) (omega (arith, same)) in
                inr (subst (λ n. Fresh n p.0) (sym same) fresh, omega (arith, same, h)))
          | inr moved ↦
              (let past : s.now < p.1.1.now = ground (arith, moved) in
                inl (omega (arith, past, lt, h)))
        ])
      ]

  tick_loop-ends :
      (fuel stop : ℕ) (w : ℕ → ℕ → Writes) (tickers : List Ticker) (s : Cron W)
      → Enough fuel stop tickers s
      → (t : Cron W) × (tick_loop fn fuel stop w tickers s ≡ some t) × (stop ≤ t.now)
  unfolding tick_loop Enough
  tick_loop-ends zero stop w tickers s (inl h) = absurd (omega (arith, h))
  tick_loop-ends zero stop w tickers s (inr (fresh, h)) =
      let over : leb stop s.now ≡ true = ground (arith, h) in
      (s, rw over refl, ground (arith, over))
  tick_loop-ends (suc fuel) stop w tickers s h = elim (Bool-cases (leb stop s.now)) [
    | inl over ↦ (s, rw over refl, ground (arith, over))
    | inr before ↦
        (let lt : s.now < stop = ground (arith, before) in
          let p = check_tickers fn (w 0) tickers s in
          let (t, e, past) =
            tick_loop-ends fuel stop (λ n. w (suc n)) p.0 (idle p.1.0 p.1.1)
              (Enough-pass fuel stop (w 0) tickers s lt h) in
          (t, rw before e, past))
  ]

  -- `Run` ends after its context has ended, whatever the jobs do and whichever writes fail: two passes
  -- for each millisecond that is left, and one more, are enough.
  pub run-ends :
      (fuel stop : ℕ) (read : Bool) (w : ℕ → ℕ → Writes) (s : Cron W)
      → 2 * (stop - (start_up fn read w s).now) + 1 ≤ fuel
      → (t : Cron W) × (run fn fuel stop read w s ≡ some t) × (stop ≤ t.now)
  unfolding run Enough
  run-ends fuel stop read w s h = tick_loop-ends fuel stop _ _ (start_up fn read w s) (inl h)
