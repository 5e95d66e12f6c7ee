-- ===== src/Billing/TenantsTable.antt =====
-- A row of the tenants table, and UPDATE statements on it: internal/billing/provision.go and the
-- statements of the other billing files, over the columns and checks that migrations/001_tenants.up.sql
-- and 038_tenant_billing_columns.up.sql give the table. Times are seconds. Columns that billing does
-- not write are left out, and the values of updated_at.
use regent_backend.Base.{
  ℕ, Bool, true, false, ◌&&◌, Option, none, some, List, [], ◌∷◌, ◌==◌, if◌then◌else◌,
}
use regent_backend.Plan.{Plan, unlisted}

-- The texts that the table allows or that a statement writes.
pub data PaymentStatus : Type 0 where
  no_payment active past_due failing suspended canceled grace_period : PaymentStatus

-- `first_failure_at` is a column for the statements only: the table has none.
pub record Tenant : Type 0 where
  pub plan : Plan
  pub customer_id : Option ℕ
  pub subscription_id : Option ℕ
  pub plan_started_at : Option ℕ
  pub payment_status : PaymentStatus
  pub failure_count : ℕ
  pub first_failure_at : Option ℕ
  pub grace_period_ends : Option ℕ

pub data Column : Type 0 where
  id_column plan_column updated_at_column stripe_customer_id_column : Column
  stripe_subscription_id_column plan_started_at_column payment_status_column : Column
  failure_count_column first_failure_at_column grace_period_ends_column : Column

-- Whether a migration gives the table the column.
unfoldable pub has_column : Column → Bool
has_column first_failure_at_column = false
has_column _ = true

unfoldable pub has_columns : List Column → Bool
unfolding has_column
has_columns [] = true
has_columns (c ∷ rest) = has_column c && has_columns rest

-- The CHECK on payment_status, and that on plan.
unfoldable pub allows_status : PaymentStatus → Bool
allows_status active = true
allows_status past_due = true
allows_status suspended = true
allows_status canceled = true
allows_status _ = false

unfoldable pub allows_plan : Plan → Bool
allows_plan (unlisted n) = false
allows_plan _ = true

unfoldable pub is_allowed : Tenant → Bool
unfolding allows_status allows_plan
is_allowed t = allows_status t.payment_status && allows_plan t.plan

-- An UPDATE: the columns that it names anywhere, and the row that it writes.
pub record Update : Type 0 where
  pub columns : List Column
  pub set : Tenant → Tenant

-- The row after the statement; none, where the database does not answer or refuses it.
unfoldable pub exec : (answered : Bool) → Update → Tenant → Option Tenant
unfolding has_columns is_allowed
exec answered u t =
    if answered && has_columns u.columns && is_allowed (u.set t) then some (u.set t) else none

unfoldable pub is_of : Option ℕ → (customer : ℕ) → Bool
is_of none customer = false
is_of (some c) customer = c == customer

-- `WHERE stripe_customer_id = $1`: where the row is another's, a statement that is run leaves it.
unfoldable pub exec_for : (answered : Bool) → (customer : ℕ) → Update → Tenant → Option Tenant
unfolding exec has_columns
exec_for answered customer u t =
    if is_of t.customer_id customer
    then exec answered u t
    else (if answered && has_columns u.columns then some t else none)

-- The row after a statement whose error is only logged.
unfoldable pub or_same : Tenant → Option Tenant → Tenant
or_same t none = t
or_same t (some t') = t'
