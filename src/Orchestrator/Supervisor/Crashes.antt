-- ===== src/Orchestrator/Supervisor/Crashes.antt =====
-- When the restart loop gives a service up.
use native.Mathlib.Decide.{dec_le}
use native.Mathlib.Nat.{pow-suc, pow-succ', mul-le-mul_left, mul-le-mul_right}
use regent_backend.Base.{
  ℕ, zero, suc, ◌+◌, ◌*◌, ◌^◌, ◌≤◌, ◌<◌, ◌≡◌, List, [], ◌∷◌, All, false, arith, refl, min, max,
  length, ap, ◌∙◌, ltb, if◌then◌else◌,
}
use regent_backend.Orchestrator.Supervisor.{
  Config, Supervisor, Round, Action, Next, again, returned, dead_lettered, cancelled_before,
  cancelled_in_run, exited, failed, fresh, after_run, on_failure, next_backoff_capped, step,
  continue, loop, run_with_supervisor,
}

-- A service that fails before it counts as stable, with the context alive.
abbrev pub IsCrash : Config → Round → Type 0
IsCrash c (failed ran rand cancelled) = (ran < c.stable_threshold) × (cancelled ≡ false)
IsCrash c _ = ⊥

-- After a failure of any kind.
abbrev pub failures_of : Next → ℕ
failures_of (again s) = s.failures
failures_of _ = 0

after_run-quick :
    (c : Config) (s : Supervisor) (ran : ℕ) → ran < c.stable_threshold → after_run c s ran ≡ s
unfolding after_run
after_run-quick c s ran h = ground arith

on_failure-again :
    (c : Config) (s : Supervisor) (rand : ℕ)
    → s.failures + 1 < c.max_failures
    → (on_failure c s rand false).1
      ≡ again (record { failures = s.failures + 1; backoff = min (s.backoff * 2) c.max_backoff })
unfolding on_failure next_backoff_capped
on_failure-again c s rand lt = ground arith

on_failure-last :
    (c : Config) (s : Supervisor) (rand : ℕ)
    → c.max_failures ≤ s.failures + 1
    → (on_failure c s rand false).1 ≡ dead_lettered
unfolding on_failure
on_failure-last c s rand le = ground arith

step-crash :
    (c : Config) (s : Supervisor) (r : Round)
    → IsCrash c r
    → (rand : ℕ) × ((step c s r).1 ≡ (on_failure c s rand false).1)
unfolding step
step-crash c s (failed ran rand cancelled) h = (rand, rw (h.1, after_run-quick c s ran h.0))
step-crash c s cancelled_before h = absurd h
step-crash c s cancelled_in_run h = absurd h
step-crash c s exited h = absurd h

continue-end :
    (k : Supervisor → List Action × Next) (p : List Action × Next)
    → (continue k p).1 ≡ (continue k ([], p.1)).1
continue-end k (acts, again s) = refl
continue-end k (acts, returned) = refl
continue-end k (acts, dead_lettered) = refl

-- How the loop ends depends on how its first round ends, not on what the round reported.
loop-cons :
    (c : Config) (s : Supervisor) (r : Round) (rs : List Round) {n : Next}
    → (step c s r).1 ≡ n
    → (loop c s (r ∷ rs)).1 ≡ (continue (λ t. loop c t rs) ([], n)).1
unfolding loop
loop-cons c s r rs e = rw (← e) (continue-end (λ t. loop c t rs) (step c s r))

doubling_capped : (b m p : ℕ) → 1 ≤ p → min (min (b * 2) m * p) m ≡ min (b * (2 * p)) m
doubling_capped b m p h = elim (dec_le (b * 2) m) [
  | yes le ↦ let e : min (b * 2) m ≡ b * 2 = omega arith in rw e (omega arith)
  | no gt ↦
      let e : min (b * 2) m ≡ m = omega arith in
      rw e (
        omega
          (arith, mul-le-mul_right p (let h' : m ≤ b * 2 = omega arith in h'), mul-le-mul_left m h))
]

two_pow_pos : (n : ℕ) → 1 ≤ 2 ^ n
two_pow_pos zero = omega arith
two_pow_pos (suc n) = rw (pow-suc 2 n) (omega (arith, two_pow_pos n))

-- The state of the loop after some crashes in a row.
abbrev pub after_crashes : Config → Supervisor → ℕ → Supervisor
after_crashes c s n = record {
  failures = s.failures + n;
  backoff = min (s.backoff * 2 ^ n) c.max_backoff;
}

abbrev after_one : Config → Supervisor → Supervisor
after_one c s = record { failures = s.failures + 1; backoff = min (s.backoff * 2) c.max_backoff }

after_one-crashes :
    (c : Config) (s : Supervisor) (n : ℕ)
    → after_crashes c (after_one c s) n ≡ after_crashes c s (suc n)
after_one-crashes c s n =
    let counted : s.failures + 1 + n ≡ s.failures + suc n = omega arith in
    let doubled : min (min (s.backoff * 2) c.max_backoff * 2 ^ n) c.max_backoff
        ≡ min (s.backoff * 2 ^ suc n) c.max_backoff =
      rw (pow-succ' 2 n) (doubling_capped s.backoff c.max_backoff (2 ^ n) (two_pow_pos n)) in
    λ i. record { failures = counted i; backoff = doubled i }

crash_restarts :
    (c : Config) (s : Supervisor) (rs : List Round)
    → s.backoff ≤ c.max_backoff
    → All (IsCrash c) rs
    → s.failures + length rs < c.max_failures
    → (loop c s rs).1 ≡ again (after_crashes c s (length rs))
unfolding loop
crash_restarts c s [] t h lt = ground arith
crash_restarts c s (r ∷ rs) t h lt =
    let (rand, e) = step-crash c s r h.0 in
    loop-cons c s r rs (e ∙ on_failure-again c s rand (omega arith))
    ∙ crash_restarts c (after_one c s) rs (omega arith) h.1 (omega arith)
    ∙ ap again (after_one-crashes c s (length rs))

crash_dead_letters :
    (c : Config) (s : Supervisor) (rs : List Round)
    → All (IsCrash c) rs
    → s.failures < c.max_failures
    → c.max_failures ≤ s.failures + length rs
    → (loop c s rs).1 ≡ dead_lettered
crash_dead_letters c s [] h lt le = absurd (omega arith)
crash_dead_letters c s (r ∷ rs) h lt le =
    let (rand, e) = step-crash c s r h.0 in
    elim (dec_le c.max_failures (s.failures + 1)) [
      | yes last ↦ loop-cons c s r rs (e ∙ on_failure-last c s rand last)
      | no more ↦
          loop-cons c s r rs (e ∙ on_failure-again c s rand (omega arith))
          ∙ crash_dead_letters c (after_one c s) rs h.1 (omega arith) (omega arith)
    ]

-- A service that fails in every round, each time before it has run for the stable threshold and with
-- its context alive, from a fresh supervisor with `base ≤ cap` and a positive limit: below the limit it is restarted with the failures counted and the backoff doubled once for
-- each, up to the cap; at the limit it is dead-lettered.
pub run_with_supervisor-crashes :
    (c : Config) (rs : List Round)
    → c.base_backoff ≤ c.max_backoff
    → 0 < c.max_failures
    → All (IsCrash c) rs
    → (length rs < c.max_failures
        → (run_with_supervisor c rs).1 ≡ again (after_crashes c (fresh c) (length rs)))
      × (c.max_failures ≤ length rs → (run_with_supervisor c rs).1 ≡ dead_lettered)
unfolding run_with_supervisor
run_with_supervisor-crashes c rs t pos h = (
  λ lt. crash_restarts c (fresh c) rs t h (omega arith),
  λ le. crash_dead_letters c (fresh c) rs h pos (omega arith),
)

-- The rounds in which the service failed before it counted as stable.
abbrev pub quick_failures : Config → List Round → ℕ
quick_failures c [] = 0
quick_failures c (failed ran rand cancelled ∷ rs) =
    (if ltb ran c.stable_threshold then 1 else 0) + quick_failures c rs
quick_failures c (_ ∷ rs) = quick_failures c rs

-- What the state has used up of the limit.
abbrev spent : Config → Next → ℕ
spent c (again s) = max s.failures 1
spent c returned = 0
spent c dead_lettered = c.max_failures

spent-step :
    (c : Config) (s : Supervisor) (r : Round)
    → spent c (step c s r).1 ≤ max s.failures 1 + quick_failures c (r ∷ [])
unfolding step
spent-step c s cancelled_before = omega arith
spent-step c s cancelled_in_run = omega arith
spent-step c s exited = omega arith
spent-step c s (failed ran rand cancelled) = ground arith

quick_failures-cons :
    (c : Config) (r : Round) (rs : List Round)
    → quick_failures c (r ∷ rs) ≡ quick_failures c (r ∷ []) + quick_failures c rs
quick_failures-cons c cancelled_before rs = omega arith
quick_failures-cons c cancelled_in_run rs = omega arith
quick_failures-cons c exited rs = omega arith
quick_failures-cons c (failed ran rand cancelled) rs = omega arith

spent-continue :
    (c : Config) (k : Supervisor → List Action × Next) (p : List Action × Next) (n : ℕ)
    → ((s : Supervisor) → spent c (k s).1 ≤ max s.failures 1 + n)
    → spent c (continue k p).1 ≤ spent c p.1 + n
spent-continue c k (acts, again s) n h = h s
spent-continue c k (acts, returned) n h = omega arith
spent-continue c k (acts, dead_lettered) n h = omega arith

spent-loop :
    (c : Config) (s : Supervisor) (rs : List Round)
    → spent c (loop c s rs).1 ≤ max s.failures 1 + quick_failures c rs
unfolding loop
spent-loop c s [] = omega arith
spent-loop c s (r ∷ rs) = omega (
  arith,
  spent-continue c (λ t. loop c t rs) (step c s r) (quick_failures c rs) (λ t. spent-loop c t rs),
  spent-step c s r,
  quick_failures-cons c r rs,
)

-- No service is dead-lettered before it has failed quickly, that is before it counted as stable, in
-- at least one round less than the limit; a service that only fails after stable runs is restarted
-- for ever, if the limit is above one.
pub dead_lettered-needs :
    (c : Config) (rs : List Round)
    → (run_with_supervisor c rs).1 ≡ dead_lettered
    → c.max_failures ≤ 1 + quick_failures c rs
unfolding run_with_supervisor fresh
dead_lettered-needs c rs h =
    let used = spent-loop c (fresh c) rs in let used' = rw h at used in omega (arith, used')
