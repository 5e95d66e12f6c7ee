-- ===== src/Middleware/TokenBucket/Idle.antt =====
-- A client that waits, and the cleanup of buckets that wait.
use native.Mathlib.Nat.{mul-le-mul_right}
use mathlib.Core.Option.{some-injective}
use regent_backend.Base.{
  ℕ, ◌+◌, ◌-◌, ◌*◌, ◌≤◌, ◌<◌, ◌≡◌, ◌∙◌, refl, Bool, Option, none, some, ◌==◌, ltb, inl, inr,
  Bool-cases, sym, subst, ap, ltb→lt, arith,
}
use regent_backend.Middleware.TokenBucket.{
  Bucket, RateLimiter, token, refill, take_token, allow, full_bucket, bucket_for, new_rate_limiter,
  allow_ip, keep_bucket, cleanup, ten_minutes,
}

-- The buckets that the limiter makes: one rate, and a capacity of one minute.
pub record IsSized (rpm : ℕ) (b : Bucket) : Type 0 where
  pub capacity : b.max_tokens ≡ rpm * token
  pub rate : b.fill_rate ≡ rpm
  pub within : b.tokens ≤ b.max_tokens

full_bucket-IsSized : (rpm now : ℕ) → IsSized rpm (full_bucket rpm now)
unfolding full_bucket
full_bucket-IsSized rpm now = omega arith

allow-IsSized : (rpm : ℕ) (b : Bucket) (now : ℕ) → IsSized rpm b → IsSized rpm (allow b now).0
unfolding allow
allow-IsSized rpm b now h = ground arith

-- After ten minutes without a request a bucket is full.
refill-idle :
    (rpm : ℕ) (b : Bucket) (now : ℕ)
    → IsSized rpm b
    → b.last_fill + ten_minutes < now
    → refill b now ≡ refill (full_bucket rpm now) now
unfolding refill full_bucket
refill-idle rpm b now h idle =
    let enough =
      mul-le-mul_right rpm (let long : ten_minutes ≤ now - b.last_fill = omega arith in long) in
    let flow : (now - b.last_fill) * b.fill_rate ≡ (now - b.last_fill) * rpm =
      λ i. (now - b.last_fill) * h.rate i in
    let none_since : now - now ≡ 0 = omega arith in
    let still : (now - now) * rpm ≡ 0 = rw none_since (omega arith) in
    ground (arith, enough, flow, still)

-- A bucket that the cleanup drops acts like the new one that takes its place.
allow-keep_bucket :
    (rpm now later : ℕ) (o : Option Bucket)
    → ((b : Bucket) → o ≡ some b → IsSized rpm b)
    → now ≤ later
    → allow (bucket_for rpm later (keep_bucket now o)) later ≡ allow (bucket_for rpm later o) later
unfolding allow bucket_for keep_bucket
allow-keep_bucket rpm now later none sized h = refl
allow-keep_bucket rpm now later (some b) sized h =
    elim (Bool-cases (ltb (b.last_fill + ten_minutes) now)) [
      | inl old ↦ rw old (
          ap take_token
            (sym (refill-idle rpm b later (sized b refl) (omega (arith, ltb→lt _ _ old)))))
      | inr young ↦ rw young
    ]

-- Every bucket of the limiter has the limiter's rate and capacity.
pub record IsWellFormed (rl : RateLimiter) : Type 0 where
  pub sized : (ip : ℕ) (b : Bucket) → rl.buckets ip ≡ some b → IsSized rl.rpm b

bucket_for-IsSized :
    (rpm now : ℕ) (o : Option Bucket)
    → ((b : Bucket) → o ≡ some b → IsSized rpm b)
    → IsSized rpm (bucket_for rpm now o)
unfolding bucket_for
bucket_for-IsSized rpm now none h = full_bucket-IsSized rpm now
bucket_for-IsSized rpm now (some b) h = h b refl

-- A new limiter is well formed, and requests and cleanups keep it so.
pub new_rate_limiter-IsWellFormed : (rpm : ℕ) → IsWellFormed (new_rate_limiter rpm)
unfolding new_rate_limiter
new_rate_limiter-IsWellFormed rpm = record { sized = λ ip b e. cc }

pub allow_ip-IsWellFormed :
    (rl : RateLimiter) (ip now : ℕ) → IsWellFormed rl → IsWellFormed (allow_ip rl ip now).0
unfolding allow_ip
allow_ip-IsWellFormed rl ip now h = record {
  sized = λ j b e. elim (Bool-cases (ip == j)) [
    | inl same ↦ subst (IsSized rl.rpm) (some-injective _ _ (rw same at e)) (
        allow-IsSized rl.rpm (bucket_for rl.rpm now (rl.buckets ip)) now
          (bucket_for-IsSized rl.rpm now (rl.buckets ip) (h.sized ip)))
    | inr other ↦ h.sized j b (sym (rw other) ∙ e)
  ];
}

-- The cleanup goes unnoticed: at any later time every client gets the same answer, and is left with
-- the same bucket, as without it.
pub cleanup-allow_ip :
    (rl : RateLimiter) (now ip later : ℕ)
    → IsWellFormed rl
    → now ≤ later
    → ((allow_ip (cleanup rl now) ip later).1 ≡ (allow_ip rl ip later).1)
      × ((allow_ip (cleanup rl now) ip later).0.buckets ip ≡ (allow_ip rl ip later).0.buckets ip)
unfolding allow_ip cleanup
cleanup-allow_ip rl now ip later h le =
    let same = allow-keep_bucket rl.rpm now later (rl.buckets ip) (h.sized ip) le in
    ((λ i. (same i).1), ground (arith, ap (λ (p : Bucket × Bool). p.0) same))
