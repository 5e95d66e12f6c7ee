-- ===== src/Middleware/AuthWindow.antt =====
-- The sliding window of internal/middleware/auth_ratelimit.go. A client is the text of
-- `r.RemoteAddr`, numbered; times are nanoseconds. A request reads the clock twice: for the cutoff,
-- and for the attempt that it records.
pub mod History
use regent_backend.Base.{
  ℕ, suc, ◌+◌, Bool, true, false, Option, none, some, List, [], ◌∷◌, ◌++◌, length, ltb, leb, ◌==◌,
  if◌then◌else◌, Table, nothing, put,
}

pub record Limiter : Type 0 where
  pub windows : Table (List ℕ)
  pub limit : ℕ
  pub duration : ℕ

unfoldable pub new_limiter : ℕ → ℕ → Limiter
new_limiter limit duration = record { windows = nothing; limit = limit; duration = duration }

-- `t.After(now.Add(-duration))`.
abbrev pub is_live : (duration now t : ℕ) → Bool
is_live duration now t = ltb now (t + duration)

unfoldable pub prune : (duration now : ℕ) → List ℕ → List ℕ
prune duration now [] = []
prune duration now (t ∷ ts) =
    let rest = prune duration now ts in if is_live duration now t then t ∷ rest else rest

abbrev pub attempts_of : Option (List ℕ) → List ℕ
attempts_of none = []
attempts_of (some ts) = ts

-- The Bool tells whether the request is passed on; if not, the answer is 429.
unfoldable pub handle : Limiter → (ip now stamp : ℕ) → Limiter × Bool
handle rl ip now stamp =
    let valid = prune rl.duration now (attempts_of (rl.windows ip)) in
    if leb rl.limit (length valid)
    then (record rl { windows = put ip valid rl.windows }, false)
    else (record rl { windows = put ip (valid ++ stamp ∷ []) rl.windows }, true)

abbrev pub keep_window : List ℕ → Option (List ℕ)
keep_window [] = none
keep_window (t ∷ ts) = some (t ∷ ts)

abbrev pub clean_window : (duration now : ℕ) → Option (List ℕ) → Option (List ℕ)
clean_window duration now none = none
clean_window duration now (some ts) = keep_window (prune duration now ts)

unfoldable pub cleanup : Limiter → ℕ → Limiter
cleanup rl now = record rl { windows = λ ip. clean_window rl.duration now (rl.windows ip) }

pub data Event : Type 0 where
  request : (ip now stamp : ℕ) → Event
  clean : ℕ → Event

-- The decisions over a sequence of requests and cleanups.
unfoldable pub decide_all : Limiter → List Event → List Bool
decide_all rl [] = []
decide_all rl (request ip now stamp ∷ es) =
    let (rl', ok) = handle rl ip now stamp in ok ∷ decide_all rl' es
decide_all rl (clean now ∷ es) = decide_all (cleanup rl now) es
