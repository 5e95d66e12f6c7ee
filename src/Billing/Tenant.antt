-- ===== src/Billing/Tenant.antt =====
-- The payment state of a tenant's row, and what changes it: internal/billing/dunning.go,
-- lifecycle.go, provision.go and webhook_handlers.go. The SQL updates are statements on the row of
-- Billing/TenantsTable.antt. The plan cache, which nothing here reads, is left out.
pub mod Settled
use regent_backend.Base.{
  ℕ, ◌+◌, ◌-◌, ◌/◌, Bool, true, false, ◌&&◌, not, Option, none, some, [], ◌∷◌, ltb, leb, ◌==◌,
  if◌then◌else◌,
}
use regent_backend.Plan.{Plan, free}
use regent_backend.Billing.TenantsTable.{
  no_payment, active, failing, suspended, grace_period, Tenant, id_column, plan_column,
  updated_at_column, stripe_customer_id_column, stripe_subscription_id_column,
  plan_started_at_column, payment_status_column, failure_count_column, first_failure_at_column,
  grace_period_ends_column, Update, exec, is_of, exec_for, or_same,
}

pub data Notice : Type 0 where
  initial_notice final_warning suspension_notice : Notice

-- The error, or the notification that is published, if any.
pub data Outcome : Type 0 where
  error : Outcome
  done : Option Notice → Outcome

abbrev pub day : ℕ
day = 86_400

abbrev pub seven_days : ℕ
seven_days = 604_800

-- `COALESCE(EXTRACT(DAY FROM NOW() - first_failure_at)::int, 0)`.
unfoldable pub days_since_first : Option ℕ → ℕ → ℕ
days_since_first none now = 0
days_since_first (some first) now = (now - first) / day

-- The first update of `HandlePaymentFailure`, which also returns the id and the days.
unfoldable pub count_failure : Update
count_failure = record {
  columns =
      failure_count_column ∷ payment_status_column ∷ updated_at_column ∷ stripe_customer_id_column
      ∷ id_column ∷ first_failure_at_column ∷ [];
  set = λ t. record t {
    failure_count = t.failure_count + 1;
    payment_status = if leb 3 (t.failure_count + 1) then suspended else failing;
  };
}

abbrev pub or_now : Option ℕ → ℕ → Option ℕ
or_now none now = some now
or_now (some t) now = some t

-- `first_failure_at` is set where it is NULL.
unfoldable pub set_first : ℕ → Update
set_first now = record {
  columns = first_failure_at_column ∷ id_column ∷ [];
  set = λ t. record t { first_failure_at = or_now t.first_failure_at now };
}

unfoldable pub suspend_account : Update
suspend_account = record {
  columns = payment_status_column ∷ plan_column ∷ updated_at_column ∷ id_column ∷ [];
  set = λ t. record t { payment_status = suspended; plan = free };
}

-- Which of the statements of a call the database answers; a handler's lookup is its query.
pub record Faults : Type 0 where
  pub query_ok : Bool
  pub update_ok : Bool
  pub first_ok : Bool
  pub suspend_ok : Bool

abbrev pub no_faults : Faults
no_faults = record { query_ok = true; update_ok = true; first_ok = true; suspend_ok = true }

-- On the first failure.
unfoldable pub mark_first : Faults → ℕ → Tenant → Tenant
unfolding set_first exec or_same
mark_first f now t =
    if t.failure_count == 1 then or_same t (exec f.first_ok (set_first now) t) else t

unfoldable pub suspended_row : Tenant → Option Tenant → Tenant × Outcome
suspended_row t none = (t, error)
suspended_row t (some t') = (t', done (some suspension_notice))

-- The switch on the counts that the first update returned.
unfoldable pub escalate : Faults → (days : ℕ) → Tenant → Tenant × Outcome
unfolding suspend_account exec suspended_row
escalate f days t =
    if leb 3 t.failure_count && leb 7 days
    then suspended_row t (exec f.suspend_ok suspend_account t)
    else (
      t,
      done (
          if t.failure_count == 2
          then some final_warning
          else (if t.failure_count == 1 then some initial_notice else none)),
    )

unfoldable pub after_count : Faults → ℕ → Tenant → Option Tenant → Tenant × Outcome
unfolding days_since_first mark_first escalate
after_count f now t none = (t, error)
after_count f now t (some t') =
    escalate f (days_since_first t'.first_failure_at now) (mark_first f now t')

-- A customer of no row is an error of the scan.
unfoldable pub handle_payment_failure : Faults → ℕ → (customer : ℕ) → Tenant → Tenant × Outcome
unfolding count_failure exec after_count
handle_payment_failure f now customer t =
    after_count f now t
      (if is_of t.customer_id customer then exec f.update_ok count_failure t else none)

unfoldable pub handle_invoice_paid : Update
handle_invoice_paid = record {
  columns =
      payment_status_column ∷ failure_count_column ∷ grace_period_ends_column ∷ updated_at_column
      ∷ stripe_customer_id_column ∷ [];
  set = λ t. record t { payment_status = active; failure_count = 0; grace_period_ends = none };
}

unfoldable pub start_grace_period : ℕ → Update
start_grace_period now = record {
  columns =
      grace_period_ends_column ∷ payment_status_column ∷ updated_at_column
      ∷ stripe_customer_id_column ∷ [];
  set =
      λ t. record t { grace_period_ends = some (now + seven_days); payment_status = grace_period };
}

unfoldable pub adjust_limits : Plan → Update
adjust_limits new_plan = record {
  columns = plan_column ∷ updated_at_column ∷ id_column ∷ [];
  set = λ t. record t { plan = new_plan };
}

unfoldable pub provision_plan : Plan → (customer subscription : Option ℕ) → ℕ → Update
provision_plan plan customer subscription now = record {
  columns =
      plan_column ∷ stripe_customer_id_column ∷ stripe_subscription_id_column
      ∷ plan_started_at_column ∷ payment_status_column ∷ failure_count_column
      ∷ first_failure_at_column ∷ grace_period_ends_column ∷ updated_at_column ∷ id_column ∷ [];
  set = λ t. record {
    plan = plan;
    customer_id = customer;
    subscription_id = subscription;
    plan_started_at = some now;
    payment_status = active;
    failure_count = 0;
    first_failure_at = none;
    grace_period_ends = none;
  };
}

abbrev pub is_free : Plan → Bool
is_free free = true
is_free _ = false

unfoldable pub downgrade_to_plan : Plan → Update
downgrade_to_plan plan =
    if is_free plan
    then record {
      columns =
          plan_column ∷ stripe_subscription_id_column ∷ grace_period_ends_column
          ∷ failure_count_column ∷ first_failure_at_column ∷ payment_status_column
          ∷ updated_at_column ∷ id_column ∷ [];
      set = λ t. record t {
        plan = plan;
        subscription_id = none;
        grace_period_ends = none;
        failure_count = 0;
        first_failure_at = none;
        payment_status = no_payment;
      };
    }
    else record {
      columns = plan_column ∷ updated_at_column ∷ id_column ∷ [];
      set = λ t. record t { plan = plan };
    }

abbrev pub is_over : Option ℕ → ℕ → Bool
is_over none now = false
is_over (some ends) now = ltb ends now

-- `CheckGraceExpiry` on one row: the condition of its query, and the downgrade, whose error is logged.
unfoldable pub check_grace_expiry : Faults → ℕ → Tenant → Tenant × Outcome
unfolding downgrade_to_plan exec or_same
check_grace_expiry f now t =
    if f.query_ok
    then (if is_over t.grace_period_ends now && not (is_free t.plan)
        then (or_same t (exec f.update_ok (downgrade_to_plan free) t), done none)
        else (t, done none))
    else (t, error)

-- The checkout session: the plan metadata, if there is any, the customer and the subscription.
pub record Checkout : Type 0 where
  pub plan : Option Plan
  pub customer : Option ℕ
  pub subscription : Option ℕ

abbrev pub or_free : Option Plan → Plan
or_free none = free
or_free (some p) = p

-- What reaches the table: the webhooks, and the expiry job. `none` stands for a part of a payload that
-- its handler rejects; the number is the customer, and the plan what the price resolves to. A checkout
-- names the tenant of the row.
pub data Event : Type 0 where
  checkout_completed : Option Checkout → Event
  invoice_paid invoice_failed subscription_deleted : (customer : Option ℕ) → Event
  subscription_updated : (customer : Option ℕ) → Option Plan → Event
  expiry_job : Event

unfoldable pub write : Tenant → Option Tenant → Tenant × Outcome
write t none = (t, error)
write t (some t') = (t', done none)

-- One event at time `now` on the row that it finds.
unfoldable pub step : Faults → ℕ → Event → Tenant → Tenant × Outcome
unfolding handle_payment_failure handle_invoice_paid start_grace_period adjust_limits provision_plan
    check_grace_expiry exec exec_for is_of write
step f now (checkout_completed none) t = (t, error)
step f now (checkout_completed (some c)) t =
    write t (exec f.update_ok (provision_plan (or_free c.plan) c.customer c.subscription now) t)
step f now (invoice_paid none) t = (t, error)
step f now (invoice_paid (some c)) t = write t (exec_for f.update_ok c handle_invoice_paid t)
step f now (invoice_failed none) t = (t, error)
step f now (invoice_failed (some c)) t = handle_payment_failure f now c t
step f now (subscription_deleted none) t = (t, error)
step f now (subscription_deleted (some c)) t =
    write t (exec_for f.update_ok c (start_grace_period now) t)
step f now (subscription_updated none p) t = (t, error)
step f now (subscription_updated (some c) none) t = (t, error)
step f now (subscription_updated (some c) (some p)) t =
    if f.query_ok && is_of t.customer_id c
    then write t (exec f.update_ok (adjust_limits p) t)
    else (t, error)
step f now expiry_job t = check_grace_expiry f now t
