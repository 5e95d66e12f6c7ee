-- ===== src/Middleware/Tests.antt =====
-- The rate limiters at concrete inputs.
use regent_backend.Base.{ℕ, ◌≤◌, ◌+◌, ◌*◌, ◌-◌, ◌≡◌, refl, true, false, List, [], ◌∷◌, arith}
use regent_backend.Middleware.AuthWindow.{
  Event, request, clean, new_limiter, decide_all, handle, prune, cleanup,
}
use regent_backend.Middleware.AuthWindow.History.{decide_by_history, decide_all-is_admitted}
use regent_backend.Middleware.TokenBucket
use regent_backend.Middleware.TokenBucket.{
  RateLimiter, token, full_bucket, allow_all, allow_ip, new_rate_limiter,
}
use regent_backend.Middleware.TokenBucket.Rate.{count_true, allow_all-rate}
use regent_backend.Middleware.TokenBucket.Idle.{
  cleanup-allow_ip, allow_ip-IsWellFormed, new_rate_limiter-IsWellFormed,
}

abbrev logins : List Event
logins =
    request 1 100 101 ∷ request 1 102 103 ∷ clean 104 ∷ request 1 105 106 ∷ request 1 200 201 ∷ []

third_login_refused : decide_all (new_limiter 2 60) logins ≡ true ∷ true ∷ false ∷ true ∷ []
unfolding decide_all new_limiter handle prune cleanup
third_login_refused = refl

decide_all-is_admitted_example :
    decide_all (new_limiter 2 60) logins ≡ decide_by_history 2 60 (λ ip. []) logins
decide_all-is_admitted_example = decide_all-is_admitted 2 60 0 logins (omega arith)

abbrev burst : List ℕ
burst = 1_000 ∷ 1_001 ∷ 1_002 ∷ []

burst_stops : (allow_all (full_bucket 2 1_000) burst).1 ≡ true ∷ true ∷ false ∷ []
unfolding allow_all full_bucket TokenBucket.allow
burst_stops = refl

allow_all-rate_example :
    count_true (allow_all (full_bucket 2 1_000) burst).1 * token ≤ 2 * token + (1_002 - 1_000) * 2
allow_all-rate_example = allow_all-rate 2 1_000 burst (omega arith)

abbrev steady : List ℕ
steady = 30_000_000_000 ∷ 60_000_000_000 ∷ 95_000_000_000 ∷ []

abbrev used_once : RateLimiter
used_once = (allow_ip (new_rate_limiter 2) 7 1_000).0

cleanup-allow_ip_example :
    ((allow_ip (TokenBucket.cleanup used_once 900_000_000_000) 7 900_000_000_001).1
      ≡ (allow_ip used_once 7 900_000_000_001).1)
    × ((allow_ip (TokenBucket.cleanup used_once 900_000_000_000) 7 900_000_000_001).0.buckets 7
        ≡ (allow_ip used_once 7 900_000_000_001).0.buckets 7)
cleanup-allow_ip_example =
    cleanup-allow_ip used_once 900_000_000_000 7 900_000_000_001
      (allow_ip-IsWellFormed (new_rate_limiter 2) 7 1_000 (new_rate_limiter-IsWellFormed 2))
      (omega arith)
