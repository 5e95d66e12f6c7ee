-- ===== src/Middleware/TokenBucket/Rate.antt =====
-- How much a bucket lets through.
use regent_backend.Base.{
  ℕ, ◌+◌, ◌-◌, ◌*◌, ◌≤◌, ◌<◌, ◌≡◌, ◌∙◌, refl, Bool, true, false, List, length, [], ◌∷◌,
  if◌then◌else◌, arith,
}
use regent_backend.Middleware.TokenBucket.{Bucket, token, allow, full_bucket, allow_all}

abbrev pub count_true : List Bool → ℕ
count_true [] = 0
count_true (true ∷ bs) = 1 + count_true bs
count_true (false ∷ bs) = count_true bs

-- Times that do not go back, from `now` on, and the last of them.
abbrev pub IsMonotone : ℕ → List ℕ → Type 0
IsMonotone now [] = Unit {0}
IsMonotone now (t ∷ ts) = (now ≤ t) × IsMonotone t ts

abbrev pub last_time : ℕ → List ℕ → ℕ
last_time now [] = now
last_time now (t ∷ ts) = last_time t ts

-- What one request costs, and what the wait before it brings in.
allow-balance :
    (b : Bucket) (now : ℕ)
    → (if (allow b now).1 then token else 0) + (allow b now).0.tokens
      ≤ b.tokens + (now - b.last_fill) * b.fill_rate
unfolding allow
allow-balance b now = ground arith

allow-fields :
    (b : Bucket) (now : ℕ)
    → ((allow b now).0.last_fill ≡ now)
      × ((allow b now).0.max_tokens ≡ b.max_tokens)
      × ((allow b now).0.fill_rate ≡ b.fill_rate)
      × ((allow b now).0.tokens ≤ b.max_tokens)
unfolding allow
allow-fields b now = ground arith

count_true-cons :
    (ok : Bool) (oks : List Bool)
    → count_true (ok ∷ oks) * token ≡ (if ok then token else 0) + count_true oks * token
count_true-cons true oks = omega arith
count_true-cons false oks = omega arith

add-mul : (a b c : ℕ) → (a + b) * c ≡ a * c + b * c
add-mul a b c = omega arith

elapsed-rate :
    (from now to rate : ℕ)
    → from ≤ now
    → now ≤ to
    → (to - from) * rate ≡ (now - from) * rate + (to - now) * rate
elapsed-rate from now to rate h k =
    let e : to - from ≡ (now - from) + (to - now) = omega arith in
    rw e (add-mul (now - from) (to - now) rate)

last_time-le : (now : ℕ) (ts : List ℕ) → IsMonotone now ts → now ≤ last_time now ts
last_time-le now [] m = omega arith
last_time-le now (t ∷ ts) m = omega (arith, last_time-le t ts m.1)

allow_all-balance :
    (b : Bucket) (now rate : ℕ) (ts : List ℕ)
    → b.last_fill ≡ now
    → b.fill_rate ≡ rate
    → IsMonotone now ts
    → count_true (allow_all b ts).1 * token ≤ b.tokens + (last_time now ts - now) * rate
unfolding allow_all
allow_all-balance b now rate [] el er m = omega arith
allow_all-balance b now rate (t ∷ ts) el er m =
    let (filled, _, same_rate, _) = allow-fields b t in
    let used : (t - b.last_fill) * b.fill_rate ≡ (t - now) * rate = λ i. (t - el i) * er i in
    omega (
      arith,
      count_true-cons (allow b t).1 (allow_all (allow b t).0 ts).1,
      allow_all-balance (allow b t).0 t rate ts filled (same_rate ∙ er) m.1,
      allow-balance b t,
      used,
      elapsed-rate now t (last_time t ts) rate m.0 (last_time-le t ts m.1),
    )

-- A client that the limiter first meets at `start` has at most `rpm` requests let through, plus
-- `rpm` for each minute since then (in parts: `rpm` for each nanosecond), whenever it asks.
pub allow_all-rate :
    (rpm start : ℕ) (ts : List ℕ)
    → IsMonotone start ts
    → count_true (allow_all (full_bucket rpm start) ts).1 * token
      ≤ rpm * token + (last_time start ts - start) * rpm
unfolding full_bucket
allow_all-rate rpm start ts m = allow_all-balance (full_bucket rpm start) start rpm ts refl refl m

-- Waits long enough for a token to come in.
abbrev pub IsSteady : (rpm now : ℕ) → List ℕ → Type 0
IsSteady rpm now [] = Unit {0}
IsSteady rpm now (t ∷ ts) = (token ≤ (t - now) * rpm) × IsSteady rpm t ts

allow-waited :
    (b : Bucket) (now inflow : ℕ)
    → (now - b.last_fill) * b.fill_rate ≡ inflow
    → token ≤ inflow
    → token ≤ b.max_tokens
    → (allow b now).1 ≡ true
unfolding allow
allow-waited b now inflow e h k = ground arith

allow_all-steady_from :
    (b : Bucket) (now rpm : ℕ) (ts : List ℕ)
    → b.last_fill ≡ now
    → b.fill_rate ≡ rpm
    → token ≤ b.max_tokens
    → IsSteady rpm now ts
    → count_true (allow_all b ts).1 ≡ length ts
unfolding allow_all
allow_all-steady_from b now rpm [] el er room h = refl
allow_all-steady_from b now rpm (t ∷ ts) el er room h =
    let (filled, same_max, same_rate, _) = allow-fields b t in
    let inflow : (t - b.last_fill) * b.fill_rate ≡ (t - now) * rpm = λ i. (t - el i) * er i in
    rw (allow-waited b t ((t - now) * rpm) inflow h.0 room) (
      omega (
        arith,
        allow_all-steady_from (allow b t).0 t rpm ts filled (same_rate ∙ er) (omega arith) h.1,
      ))

-- A client that waits a token's time (a minute divided by `rpm`) before each request is never
-- refused, for a positive rate.
pub allow_all-steady :
    (rpm start : ℕ) (ts : List ℕ)
    → 0 < rpm
    → IsSteady rpm start ts
    → count_true (allow_all (full_bucket rpm start) ts).1 ≡ length ts
unfolding full_bucket
allow_all-steady rpm start ts pos h =
    allow_all-steady_from (full_bucket rpm start) start rpm ts refl refl (omega arith) h
