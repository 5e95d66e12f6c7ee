-- ===== src/Orchestrator/Supervisor/Backoff.antt =====
-- The backoff of the restart loop, and the waits that it leads to.
use regent_backend.Base.{ℕ, ◌+◌, ◌*◌, ◌≤◌, ◌<◌, List, [], ◌∷◌, All, All-append, arith}
use regent_backend.Orchestrator.Supervisor.{
  Config, Supervisor, Round, Action, Next, wait, again, returned, dead_lettered, cancelled_before,
  cancelled_in_run, exited, failed, two_53, apply_jitter, next_backoff_capped, step, continue, loop,
  run_with_supervisor,
}

-- The jitter is at most a fifth of the duration, either way.
pub apply_jitter_bounds :
    (d k : ℕ) → k < two_53 → (4 * d ≤ 5 * apply_jitter d k + 4) × (5 * apply_jitter d k ≤ 6 * d)
unfolding apply_jitter
apply_jitter_bounds d k h =
    let product : d * k ≤ d * two_53 = grind arith in (omega arith, omega arith)

-- The backoff lies between the configured base and cap, and the loop has failures to spare.
pub record InRange (c : Config) (s : Supervisor) : Type 0 where
  pub above_base : c.base_backoff ≤ s.backoff
  pub below_cap : s.backoff ≤ c.max_backoff

-- What the random numbers of a round may be.
abbrev pub IsDrawn : Round → Type 0
IsDrawn (failed ran rand cancelled) = rand < two_53
IsDrawn _ = Unit

abbrev pub IsBounded : Config → Action → Type 0
IsBounded c (wait d) = (4 * c.base_backoff ≤ 5 * d + 4) × (5 * d ≤ 6 * c.max_backoff)
IsBounded c _ = Unit

abbrev NextInRange : Config → Next → Type 0
NextInRange c (again s) = InRange c s
NextInRange c _ = Unit

step-InRange :
    (c : Config) (s : Supervisor) (r : Round)
    → c.base_backoff ≤ c.max_backoff
    → InRange c s
    → NextInRange c (step c s r).1
unfolding step next_backoff_capped
step-InRange c s cancelled_before t h = tt
step-InRange c s cancelled_in_run t h = tt
step-InRange c s exited t h = ground arith
step-InRange c s (failed ran rand cancelled) t h = ground arith

step-IsBounded :
    (c : Config) (s : Supervisor) (r : Round)
    → c.base_backoff ≤ c.max_backoff
    → IsDrawn r
    → InRange c s
    → All (IsBounded c) (step c s r).0
unfolding step
step-IsBounded c s cancelled_before t d h = tt
step-IsBounded c s cancelled_in_run t d h = (tt, tt)
step-IsBounded c s exited t d h = (tt, tt)
step-IsBounded c s (failed ran rand cancelled) t d h =
    ground (arith, apply_jitter_bounds s.backoff rand, apply_jitter_bounds c.base_backoff rand)

abbrev Keeps : Config → List Action × Next → Type 0
Keeps c p = All (IsBounded c) p.0 × NextInRange c p.1

continue-Keeps :
    (c : Config) (k : Supervisor → List Action × Next) (p : List Action × Next)
    → ((s : Supervisor) → InRange c s → Keeps c (k s))
    → Keeps c p
    → Keeps c (continue k p)
continue-Keeps c k (acts, again s) next (b, h) =
    (All-append (IsBounded c) acts (k s).0 b (next s h).0, (next s h).1)
continue-Keeps c k (acts, returned) next h = h
continue-Keeps c k (acts, dead_lettered) next h = h

loop-Keeps :
    (c : Config) (s : Supervisor) (rs : List Round)
    → c.base_backoff ≤ c.max_backoff
    → All IsDrawn rs
    → InRange c s
    → Keeps c (loop c s rs)
unfolding loop
loop-Keeps c s [] t d h = (tt, h)
loop-Keeps c s (r ∷ rs) t d h =
    continue-Keeps c (λ u. loop c u rs) (step c s r) (λ u hu. loop-Keeps c u rs t d.1 hu)
      (step-IsBounded c s r t d.0 h, step-InRange c s r t h)

-- Whatever a supervised service does, every wait before a restart lies between four fifths of the
-- base backoff (less the rounding) and six fifths of the cap, if the base is at most the cap.
pub run_with_supervisor-waits :
    (c : Config) (rs : List Round)
    → c.base_backoff ≤ c.max_backoff
    → All IsDrawn rs
    → All (IsBounded c) (run_with_supervisor c rs).0
unfolding run_with_supervisor
run_with_supervisor-waits c rs t d = (loop-Keeps c _ rs t d (omega arith)).0
