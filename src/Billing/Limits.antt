-- ===== src/Billing/Limits.antt =====
-- The limits of internal/billing/config.go and the checks of internal/billing/limits.go. What the
-- database answers is an input: `none` where a query fails.
use regent_backend.Base.{ℕ, ◌*◌, Bool, true, false, Option, none, some, ltb, ◌==◌, if◌then◌else◌}
use regent_backend.Plan.{Plan, free, attache, privy_council, estate, unlisted}

-- 0 stands for unlimited.
pub record PlanLimits : Type 0 where
  pub max_accounts : ℕ
  pub daily_tokens : ℕ
  pub emails_per_month : ℕ

abbrev pub free_limits : PlanLimits
free_limits = record { max_accounts = 2; daily_tokens = 50_000; emails_per_month = 500 }

-- `GetPlanByName` over the plans that `InitPlans` sets up.
unfoldable pub plan_by_name : Plan → Option PlanLimits
plan_by_name free = some free_limits
plan_by_name attache =
    some (record { max_accounts = 10; daily_tokens = 500_000; emails_per_month = 10_000 })
plan_by_name privy_council =
    some (record { max_accounts = 25; daily_tokens = 2_000_000; emails_per_month = 50_000 })
plan_by_name estate = some (record { max_accounts = 0; daily_tokens = 0; emails_per_month = 0 })
plan_by_name (unlisted n) = none

abbrev pub or_free : Option PlanLimits → PlanLimits
or_free none = free_limits
or_free (some l) = l

-- A plan that is not listed has the limits of the free plan.
unfoldable pub limits_of : Plan → PlanLimits
unfolding plan_by_name
limits_of p = or_free (plan_by_name p)

pub data UsageField : Type 0 where
  emails_processed ai_calls tokens_consumed storage_bytes notifications_sent : UsageField
  unlisted_field : ℕ → UsageField

-- What the database answers during one check.
pub record Answers : Type 0 where
  -- A connection is acquired and bound to the tenant.
  pub connected : Bool
  pub usage : Option ℕ
  pub plan : Option Plan

pub data Check : Type 0 where
  failed : Check
  checked : (allowed : Bool) (current limit : ℕ) → Check

abbrev pub compare_limit : (current limit : ℕ) → Check
compare_limit current limit = checked (if limit == 0 then true else ltb current limit) current limit

abbrev pub is_allowed_field : UsageField → Bool
is_allowed_field (unlisted_field n) = false
is_allowed_field _ = true

abbrev pub field_limit : UsageField → PlanLimits → ℕ
field_limit tokens_consumed l = l.daily_tokens * 30
field_limit emails_processed l = l.emails_per_month
field_limit _ l = 0

abbrev pub usage_check : UsageField → Option ℕ → Option Plan → Check
usage_check f none p = failed
usage_check f (some current) none = failed
usage_check f (some current) (some p) = compare_limit current (field_limit f (limits_of p))

unfoldable pub check_usage_limit : UsageField → Answers → Check
unfolding limits_of
check_usage_limit f a =
    if is_allowed_field f
    then (if a.connected then usage_check f a.usage a.plan else failed)
    else failed

abbrev pub or_zero : Option ℕ → ℕ
or_zero none = 0
or_zero (some n) = n

abbrev pub daily_check : ℕ → Option Plan → Check
daily_check current none = failed
daily_check current (some p) = compare_limit current (limits_of p).daily_tokens

-- A missing usage row counts as no usage.
unfoldable pub check_daily_token_limit : Answers → Check
unfolding limits_of
check_daily_token_limit a = if a.connected then daily_check (or_zero a.usage) a.plan else failed
