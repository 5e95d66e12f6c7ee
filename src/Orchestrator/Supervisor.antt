-- ===== src/Orchestrator/Supervisor.antt =====
-- The restart loop of internal/orchestrator/supervisor.go. Durations are nanoseconds. What the
-- loop meets in one turn (how the service ended, whether the context was cancelled, the random
-- number drawn) is a `Round`; a run is a list of them. Float products are exact here.
pub mod Backoff
pub mod Crashes
mod Tests
use regent_backend.Base.{ℕ, suc, ◌+◌, ◌*◌, ◌/◌, Bool, List, [], ◌∷◌, ◌++◌, ltb, leb, if◌then◌else◌}

-- The fields of OrchestratorConfig that the supervisor reads.
pub record Config : Type 0 where
  pub base_backoff : ℕ
  pub max_backoff : ℕ
  pub max_failures : ℕ
  pub stable_threshold : ℕ

-- internal/orchestrator/boot.go: DefaultConfig.
abbrev pub default_config : Config
default_config = record {
  base_backoff = 2_000_000_000;
  max_backoff = 300_000_000_000;
  max_failures = 10;
  stable_threshold = 30_000_000_000;
}

-- The variables of the loop.
pub record Supervisor : Type 0 where
  pub failures : ℕ
  pub backoff : ℕ

pub data Round : Type 0 where
  -- The context is done before the service starts.
  cancelled_before : Round
  -- The context is done when the service returns.
  cancelled_in_run : Round
  -- The service returns nil.
  exited : Round
  -- The service returns an error after `ran`; `rand` is the numerator over 2^53 of the random
  -- float; the last field tells whether the context is done while it waits.
  failed : (ran rand : ℕ) → Bool → Round

-- Statuses written to the health reporter, and the waits.
pub data Action : Type 0 where
  running error paused : Action
  report_dead_letter : ℕ → Action
  wait : ℕ → Action

pub data Next : Type 0 where
  again : Supervisor → Next
  returned : Next
  dead_lettered : Next

abbrev pub two_53 : ℕ
two_53 = 9_007_199_254_740_992

-- 0.8 + rand * (1.2 - 0.8), rand = k / 2^53, truncated to a whole duration.
unfoldable pub apply_jitter : ℕ → ℕ → ℕ
apply_jitter d k = d * (4 * two_53 + 2 * k) / (5 * two_53)

unfoldable pub next_backoff_capped : ℕ → ℕ → ℕ
next_backoff_capped current max = let next = current * 2 in if ltb max next then max else next

pub fresh : Config → Supervisor
fresh c = record { failures = 0; backoff = c.base_backoff }

-- A run as long as the threshold resets both counters.
unfoldable pub after_run : Config → Supervisor → ℕ → Supervisor
unfolding fresh
after_run c s ran = if leb c.stable_threshold ran then fresh c else s

-- The body of the loop from the failure on.
unfoldable pub on_failure : Config → Supervisor → ℕ → Bool → List Action × Next
on_failure c s rand cancelled =
    let n = s.failures + 1 in
    if leb c.max_failures n then (report_dead_letter n ∷ paused ∷ [], dead_lettered) else (
      error ∷ wait (apply_jitter s.backoff rand) ∷ [],
      if cancelled
          then returned
          else again
              (record { failures = n; backoff = next_backoff_capped s.backoff c.max_backoff }),
    )

unfoldable pub step : Config → Supervisor → Round → List Action × Next
unfolding on_failure after_run fresh
step c s cancelled_before = ([], returned)
step c s cancelled_in_run = (running ∷ [], returned)
step c s exited = (running ∷ [], again (fresh c))
step c s (failed ran rand cancelled) =
    let (acts, next) = on_failure c (after_run c s ran) rand cancelled in (running ∷ acts, next)

abbrev pub continue : (Supervisor → List Action × Next) → List Action × Next → List Action × Next
continue k (acts, again s) = let (more, end) = k s in (acts ++ more, end)
continue k (acts, returned) = (acts, returned)
continue k (acts, dead_lettered) = (acts, dead_lettered)

-- The loop over the rounds that come; it stops where a round returns.
unfoldable pub loop : Config → Supervisor → List Round → List Action × Next
loop c s [] = ([], again s)
loop c s (r ∷ rs) = continue (λ t. loop c t rs) (step c s r)

unfoldable pub run_with_supervisor : Config → List Round → List Action × Next
unfolding fresh
run_with_supervisor c rs = loop c (fresh c) rs
