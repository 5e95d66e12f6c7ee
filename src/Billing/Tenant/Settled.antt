-- ===== src/Billing/Tenant/Settled.antt =====
-- What becomes of a tenant's row on the repository's own tables.
use regent_backend.Base.{
  ℕ, ◌≡◌, refl, ap, ◌∙◌, Bool, true, false, ◌&&◌, ◌||◌, Option, not, Bool-cases, inl, inr, if_each,
  List, [], ◌∷◌, none, some, arith, if◌then◌else◌,
}
use regent_backend.Plan.{Plan, free}
use regent_backend.Billing.TenantsTable.{
  Tenant, active, Update, has_columns, allows_plan, is_allowed, exec, is_of, exec_for, or_same,
}
use regent_backend.Billing.Tenant.{
  Faults, error, done, handle_payment_failure, Event, Checkout, checkout_completed, invoice_paid,
  invoice_failed, subscription_deleted, subscription_updated, expiry_job, or_free, write,
  count_failure, after_count, provision_plan, start_grace_period, downgrade_to_plan, step,
}

-- No statement that names a missing column, or that writes a row the checks refuse, is run.
exec-missing :
    (answered : Bool) (u : Update) (t : Tenant)
    → has_columns u.columns ≡ false
    → exec answered u t ≡ none
unfolding exec
exec-missing answered u t h = ground (arith, h)

exec-refused :
    (answered : Bool) (u : Update) (t : Tenant)
    → is_allowed (u.set t) ≡ false
    → exec answered u t ≡ none
unfolding exec
exec-refused answered u t h = ground (arith, h)

checkout :
    (f : Faults) (now : ℕ) (t : Tenant) (c : Option Checkout)
    → step f now (checkout_completed c) t ≡ (t, error)
unfolding step
checkout f now t none = refl
checkout f now t (some c) = ap (write t) (
    exec-missing f.update_ok (provision_plan (or_free c.plan) c.customer c.subscription now) t refl)

failed :
    (f : Faults) (now : ℕ) (t : Tenant) (c : Option ℕ)
    → step f now (invoice_failed c) t ≡ (t, error)
unfolding step handle_payment_failure
failed f now t none = refl
failed f now t (some c) = ap (after_count f now t) (
    if_each (λ o. o ≡ none) (is_of t.customer_id c) _ _
      (exec-missing f.update_ok count_failure t refl) refl)

deleted :
    (f : Faults) (now : ℕ) (t : Tenant) (c : ℕ)
    → step f now (subscription_deleted (some c)) t
      ≡ (t, if is_of t.customer_id c || not f.update_ok then error else done none)
unfolding step exec_for
deleted f now t c = elim (Bool-cases (is_of t.customer_id c)) [
  | inl y ↦ rw (y, exec-refused f.update_ok (start_grace_period now) t refl) refl
  | inr n ↦ rw n (ground arith)
]

expired : (f : Faults) (now : ℕ) (t : Tenant) → (step f now expiry_job t).0 ≡ t
unfolding step
expired f now t =
    let kept = ap (or_same t) (exec-missing f.update_ok (downgrade_to_plan free) t refl) in
    ground (arith, kept)

-- On the repository's tables a completed checkout and a failed invoice end in an error and leave the
-- row, whatever the database answers. So does a deleted subscription of the row's customer; one of
-- another customer leaves the row, and is an error if its statement is not run. And the expiry job
-- leaves the row.
pub step-refused :
    (f : Faults) (now : ℕ) (t : Tenant)
    → ((c : Option Checkout) → step f now (checkout_completed c) t ≡ (t, error))
      × ((c : Option ℕ) → step f now (invoice_failed c) t ≡ (t, error))
      × ((c : ℕ)
          → step f now (subscription_deleted (some c)) t
            ≡ (t, if is_of t.customer_id c || not f.update_ok then error else done none))
      × ((step f now expiry_job t).0 ≡ t)
step-refused f now t = (checkout f now t, failed f now t, deleted f now t, expired f now t)

-- Whether the event marks an invoice of the row's customer as paid, and the plan that it leaves.
abbrev pub pays : Option ℕ → Faults → Event → Bool
pays id f (invoice_paid (some c)) = is_of id c && f.update_ok
pays id f _ = false

abbrev pub plan_after : Option ℕ → Faults → Event → Plan → Plan
plan_after id f (subscription_updated (some c) (some p)) old =
    if is_of id c && f.query_ok && f.update_ok && allows_plan p then p else old
plan_after id f _ old = old

-- A row with another plan, and with the failures and the grace period cleared if an invoice was paid.
abbrev pub settle : (paid : Bool) → Plan → Tenant → Tenant
settle paid p t =
    if paid
    then record t { plan = p; payment_status = active; failure_count = 0; grace_period_ends = none }
    else record t { plan = p }

step-settle :
    (f : Faults) (now : ℕ) (e : Event) (t : Tenant)
    → is_allowed t ≡ true
    → ((step f now e t).0 ≡ settle (pays t.customer_id f e) (plan_after t.customer_id f e t.plan) t)
      × (is_allowed (step f now e t).0 ≡ true)
unfolding step exec exec_for
step-settle f now (checkout_completed c) t h = let r = (step-refused f now t).0 c in rw r (refl, h)
step-settle f now (invoice_paid none) t h = (refl, h)
step-settle f now (invoice_paid (some c)) t h = ground (arith, h)
step-settle f now (invoice_failed c) t h = let r = (step-refused f now t).1 c in rw r (refl, h)
step-settle f now (subscription_deleted none) t h = (refl, h)
step-settle f now (subscription_deleted (some c)) t h =
    let r = (step-refused f now t).2 c in rw r (refl, h)
step-settle f now (subscription_updated none p) t h = (refl, h)
step-settle f now (subscription_updated (some c) none) t h = (refl, h)
step-settle f now (subscription_updated (some c) (some p)) t h = ground (arith, h)
step-settle f now expiry_job t h = let r = (step-refused f now t).3 in rw r (refl, h)

unfoldable pub run : List (Faults × ℕ × Event) → Tenant → Tenant
run [] t = t
run ((f, now, e) ∷ es) t = run es (step f now e t).0

abbrev pub any_paid : Option ℕ → List (Faults × ℕ × Event) → Bool
any_paid id [] = false
any_paid id ((f, now, e) ∷ es) = pays id f e || any_paid id es

abbrev pub last_plan : Option ℕ → List (Faults × ℕ × Event) → Plan → Plan
last_plan id [] p = p
last_plan id ((f, now, e) ∷ es) p = last_plan id es (plan_after id f e p)

settle-settle :
    (a b : Bool) (p q : Plan) (t : Tenant) → settle b q (settle a p t) ≡ settle (a || b) q t
settle-settle true true p q t = refl
settle-settle true false p q t = refl
settle-settle false true p q t = refl
settle-settle false false p q t = refl

settle-plan :
    (a : Bool) (p : Plan) (t : Tenant)
    → ((settle a p t).plan ≡ p) × ((settle a p t).customer_id ≡ t.customer_id)
settle-plan true p t = (refl, refl)
settle-plan false p t = (refl, refl)

-- Whatever events come and whichever statements are answered, a row that the tables allow ends as it
-- was, but with the plan of the last updated subscription of its customer whose statements are answered
-- and whose plan is listed; and, if the update for a paid invoice of its customer was answered, active
-- and without failures and grace period. So no checkout gives a plan or a customer, and no failed
-- payment or cancellation takes a plan away.
pub run-settle :
    (es : List (Faults × ℕ × Event)) (t : Tenant)
    → is_allowed t ≡ true
    → run es t ≡ settle (any_paid t.customer_id es) (last_plan t.customer_id es t.plan) t
unfolding run
run-settle [] t h = refl
run-settle ((f, now, e) ∷ es) t h =
    let (same, kept) = step-settle f now e t h in
    let id = t.customer_id in
    let t' = (step f now e t).0 in
    let p = plan_after id f e t.plan in
    let (q, i) = settle-plan (pays id f e) p t in
    let plan : t'.plan ≡ p = ap (λ x. x.plan) same ∙ q in
    let customer : t'.customer_id ≡ id = ap (λ x. x.customer_id) same ∙ i in
    run-settle es t' kept
    ∙ ap (λ x. settle (any_paid x es) (last_plan x es t'.plan) t') customer
    ∙ ap (λ x. settle (any_paid id es) (last_plan id es x) t') plan
    ∙ ap (settle (any_paid id es) (last_plan id es p)) same
    ∙ settle-settle (pays id f e) (any_paid id es) p (last_plan id es p) t

unpaid :
    (es : List (Faults × ℕ × Event)) (p : Plan)
    → (any_paid none es ≡ false) × (last_plan none es p ≡ p)
unfolding is_of
unpaid [] p = (refl, refl)
unpaid ((f, now, checkout_completed c) ∷ es) p = unpaid es p
unpaid ((f, now, invoice_paid none) ∷ es) p = unpaid es p
unpaid ((f, now, invoice_paid (some c)) ∷ es) p = unpaid es p
unpaid ((f, now, invoice_failed c) ∷ es) p = unpaid es p
unpaid ((f, now, subscription_deleted c) ∷ es) p = unpaid es p
unpaid ((f, now, subscription_updated none q) ∷ es) p = unpaid es p
unpaid ((f, now, subscription_updated (some c) none) ∷ es) p = unpaid es p
unpaid ((f, now, subscription_updated (some c) (some q)) ∷ es) p = unpaid es p
unpaid ((f, now, expiry_job) ∷ es) p = unpaid es p

-- A tenant without a customer, as each one begins, stays as it is, whatever events come: the one
-- statement that writes the customer is refused.
pub run-unpaid :
    (es : List (Faults × ℕ × Event)) (t : Tenant)
    → is_allowed t ≡ true
    → t.customer_id ≡ none
    → run es t ≡ t
run-unpaid es t h e =
    let (unpaid_es, same) = unpaid es t.plan in
    run-settle es t h
    ∙ ap (λ x. settle (any_paid x es) (last_plan x es t.plan) t) e
    ∙ ap (λ b. settle b (last_plan none es t.plan) t) unpaid_es
    ∙ ap (λ x. settle false x t) same
