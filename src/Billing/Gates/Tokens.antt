-- ===== src/Billing/Gates/Tokens.antt =====
-- What the token gate enforces, and where its two readings of the plan part.
use regent_backend.Base.{ℕ, ◌+◌, ◌<◌, ◌≡◌, ◌≢◌, ap, if◌then◌else◌, ◌==◌, true, some, arith}
use regent_backend.Plan.{Plan, estate}
use regent_backend.Billing.Limits.{
  Answers, limits_of, or_zero, compare_limit, check_daily_token_limit,
}
use regent_backend.Billing.Gates.{
  Response, served, payment_required, daily_tokens, require_tokens, next_plan, token_gate, two_63,
}

-- The database answers the check with a usage row or none, and with this plan.
abbrev pub AnswersWith : Answers → ℕ → Plan → Type 0
AnswersWith a current p = (a.connected ≡ true) × (or_zero a.usage ≡ current) × (a.plan ≡ some p)

-- What the check comes to, on the limit of the plan in the database.
check-answer :
    (a : Answers) (current : ℕ) (p : Plan)
    → AnswersWith a current p
    → check_daily_token_limit a ≡ compare_limit current (limits_of p).daily_tokens
unfolding check_daily_token_limit
check-answer a current p h =
    simp (h.0, h.2) (ap (λ c. compare_limit c (limits_of p).daily_tokens) h.1)

abbrev gate_on : (seen current requested limit : ℕ) → Plan → Response
gate_on seen current requested limit p =
    if seen == 0 then served else token_gate (compare_limit current limit) requested p

gate_on-unlimited :
    (seen current requested : ℕ) (p : Plan)
    → current + requested < two_63
    → seen ≢ 0
    → 0 < requested
    → gate_on seen current requested 0 p ≡ payment_required daily_tokens p (next_plan p)
gate_on-unlimited seen current requested p b s pos = ground arith

-- While the cache still holds a limited plan of a tenant that is on the estate plan, every request
-- for tokens is refused, whatever the usage: the unlimited plan's limit 0 is compared as a number.
pub require_tokens-stale :
    (a : Answers) (current requested : ℕ) (p : Plan)
    → AnswersWith a current estate
    → current + requested < two_63
    → (limits_of p).daily_tokens ≢ 0
    → 0 < requested
    → require_tokens true (some p) a requested ≡ payment_required daily_tokens p (next_plan p)
unfolding require_tokens
require_tokens-stale a current requested p h b limited pos =
    rw (check-answer a current estate h)
      (gate_on-unlimited (limits_of p).daily_tokens current requested p b limited pos)
