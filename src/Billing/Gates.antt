-- ===== src/Billing/Gates.antt =====
-- The gates of internal/billing/gates.go. Each takes what its lookups answer: the plan from the
-- cache or the database, counts, and token usage.
pub mod Tokens
pub mod Served
use regent_backend.Base.{
  ℕ, ◌+◌, ◌*◌, Bool, true, false, not, ◌||◌, Option, none, some, ltb, leb, ◌==◌, if◌then◌else◌,
}
use regent_backend.Plan.{Plan, free, attache, privy_council, estate, unlisted}
use regent_backend.Billing.Features.{Feature, has_feature, suggest_upgrade}
use regent_backend.Billing.Limits.{
  PlanLimits, Answers, Check, failed, checked, limits_of, check_daily_token_limit,
}

pub data Gate : Type 0 where
  feature : Feature → Gate
  max_accounts daily_tokens : Gate

pub data Response : Type 0 where
  -- The request goes on to the next handler.
  served : Response
  -- 401.
  unauthorized : Response
  -- 402, with the gate, the current plan, and the upgrade if there is one.
  payment_required : Gate → Plan → Option Plan → Response

unfoldable pub next_plan : Plan → Option Plan
next_plan free = some attache
next_plan attache = some privy_council
next_plan privy_council = some estate
next_plan estate = none
next_plan (unlisted n) = none

-- An unauthenticated request is refused; one whose plan cannot be read is served (fail open).
abbrev pub with_plan : Bool → Option Plan → (Plan → Response) → Response
with_plan false p k = unauthorized
with_plan true none k = served
with_plan true (some p) k = k p

unfoldable pub require_feature : Feature → (authenticated : Bool) → Option Plan → Response
require_feature f authenticated plan =
    with_plan authenticated plan
      λ p. if has_feature p f then served else payment_required (feature f) p (suggest_upgrade p f)

-- The account count is read only under a limit; it fails open.
abbrev pub account_gate : ℕ → Option ℕ → Plan → Response
account_gate limit none p = served
account_gate limit (some count) p =
    if leb limit count then payment_required max_accounts p (next_plan p) else served

unfoldable pub require_accounts : (authenticated : Bool) → Option Plan → Option ℕ → Response
unfolding limits_of next_plan
require_accounts authenticated plan count = with_plan authenticated plan λ p.
    let limit = (limits_of p).max_accounts in
    if limit == 0 then served else account_gate limit count p

abbrev pub two_63 : ℕ
two_63 = 9_223_372_036_854_775_808

-- `current + requested > limit` on int64: a sum from 2^63 on is negative.
abbrev pub sum_exceeds : (current requested limit : ℕ) → Bool
sum_exceeds current requested limit =
    if ltb (current + requested) two_63 then ltb limit (current + requested) else false

abbrev pub token_gate : Check → (requested : ℕ) → Plan → Response
token_gate failed requested p = served
token_gate (checked allowed current limit) requested p =
    if not allowed || sum_exceeds current requested limit
    then payment_required daily_tokens p (next_plan p)
    else served

-- The gate reads the plan from the cache, and the check reads it from the database again.
unfoldable pub require_tokens :
    (authenticated : Bool) → (cached : Option Plan) → Answers → (requested : ℕ) → Response
unfolding limits_of next_plan check_daily_token_limit
require_tokens authenticated cached answers requested = with_plan authenticated cached λ p.
    if (limits_of p).daily_tokens == 0
    then served
    else token_gate (check_daily_token_limit answers) requested p
