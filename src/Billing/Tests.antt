-- ===== src/Billing/Tests.antt =====
-- Plans, gates and payment states at concrete inputs.
use regent_backend.Base.{
  ℕ, ◌≡◌, refl, true, Option, some, none, ◌||◌, not, if◌then◌else◌, List, [], ◌∷◌,
}
use regent_backend.Plan.{free, attache, privy_council, estate}
use regent_backend.Billing.Features.{
  premium_draft, has_feature, plan_order, ordered, suggest_upgrade,
}
use regent_backend.Billing.Features.Order.{Answers, suggest_upgrade-Answers}
use regent_backend.Billing.Limits
use regent_backend.Billing.TenantsTable.{Tenant, active, is_allowed, is_of, exec_for}
use regent_backend.Billing.Tenant.{
  Event, Faults, Checkout, error, done, checkout_completed, invoice_failed, invoice_paid,
  subscription_updated, subscription_deleted, expiry_job, no_faults, step, adjust_limits,
  handle_invoice_paid,
}
use regent_backend.Billing.Tenant.Settled.{run, settle, run-settle, run-unpaid, step-refused}

suggest_upgrade-Answers_example :
    Answers (plan_order attache) premium_draft ordered (suggest_upgrade attache premium_draft)
suggest_upgrade-Answers_example = suggest_upgrade-Answers attache premium_draft

suggested : suggest_upgrade attache premium_draft ≡ some privy_council
unfolding suggest_upgrade plan_order has_feature
suggested = refl

abbrev low_usage : Limits.Answers
low_usage = record { connected = true; usage = some 100; plan = some attache }

abbrev tenant : Tenant
tenant = record {
  plan = attache;
  customer_id = some 5;
  subscription_id = some 6;
  plan_started_at = some 0;
  payment_status = active;
  failure_count = 1;
  first_failure_at = none;
  grace_period_ends = none;
}

abbrev events : List (Faults × ℕ × Event)
events =
    (
      no_faults,
      10,
      checkout_completed
          (some (record { plan = some estate; customer = some 5; subscription = some 8 })),
    )
    ∷ (no_faults, 20, invoice_failed (some 5))
    ∷ (no_faults, 30, subscription_updated (some 5) (some privy_council))
    ∷ (no_faults, 40, invoice_paid (some 5))
    ∷ (no_faults, 50, subscription_deleted (some 5))
    ∷ (no_faults, 700_000, expiry_job)
    ∷ []

run-settle_example : run events tenant ≡ settle true privy_council tenant
unfolding is_allowed is_of
run-settle_example = run-settle events tenant refl

events_plan : (run events tenant).plan ≡ privy_council
unfolding run step exec_for is_of adjust_limits handle_invoice_paid
events_plan = refl

step-refused_example :
    ((c : Option Checkout) → step no_faults 10 (checkout_completed c) tenant ≡ (tenant, error))
    × ((c : Option ℕ) → step no_faults 10 (invoice_failed c) tenant ≡ (tenant, error))
    × ((c : ℕ)
        → step no_faults 10 (subscription_deleted (some c)) tenant ≡ (
          tenant,
          if is_of tenant.customer_id c || not no_faults.update_ok then error else done none,
        ))
    × ((step no_faults 10 expiry_job tenant).0 ≡ tenant)
step-refused_example = step-refused no_faults 10 tenant

abbrev newcomer : Tenant
newcomer = record tenant { plan = free; customer_id = none; subscription_id = none }

run-unpaid_example : run events newcomer ≡ newcomer
unfolding is_allowed
run-unpaid_example = run-unpaid events newcomer refl refl
