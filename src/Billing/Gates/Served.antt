-- ===== src/Billing/Gates/Served.antt =====
-- What the feature and account gates let through, and the upgrade that they name.
use regent_backend.Base.{
  ℕ, ◌≤◌, ◌<◌, ◌≡◌, ◌≢◌, ◌==◌, if◌then◌else◌, true, false, Option, none, some, arith, Bool-cases,
  inl, inr,
}
use regent_backend.Plan.{Plan}
use regent_backend.Billing.Features.{Feature, has_feature, plan_order, ordered, suggest_upgrade}
use regent_backend.Billing.Features.Order.{Answers, suggest_upgrade-Answers}
use regent_backend.Billing.Limits.{limits_of}
use regent_backend.Billing.Gates.{
  Gate, served, payment_required, max_accounts, require_feature, require_accounts, account_gate,
  next_plan,
}

upgrade_serves :
    (p r : Plan) (f : Feature) (o : Option Plan)
    → Answers (plan_order p) f ordered o
    → o ≡ some r
    → (plan_order p < plan_order r) × (has_feature r f ≡ true)
upgrade_serves p r f none a e = cc
upgrade_serves p r f (some q) a e = ground (arith, a.0, a.1)

-- A 402 of the feature gate: the plan lacks the feature, and an upgrade that is named is a higher
-- plan that passes the gate.
pub require_feature-upgrade :
    (f : Feature) (p q r : Plan) (g : Gate)
    → require_feature f true (some p) ≡ payment_required g q (some r)
    → (q ≡ p)
      × (has_feature p f ≡ false)
      × (plan_order p < plan_order r)
      × (require_feature f true (some r) ≡ served)
unfolding require_feature
require_feature-upgrade f p q r g h = elim (Bool-cases (has_feature p f)) [
  | inl has ↦ (let bad = rw has at h in cc)
  | inr lacks ↦
      (let e = rw lacks at h in
        let named : suggest_upgrade p f ≡ some r = cc e in
        let (above, has) =
          upgrade_serves p r f (suggest_upgrade p f) (suggest_upgrade-Answers p f) named in
        (cc e, lacks, above, rw has))
]

-- Under a limit on accounts, a tenant is served exactly while its count is below the limit, and is
-- pointed to the next plan from then on.
pub require_accounts-limit :
    (p : Plan) (count : ℕ)
    → (limits_of p).max_accounts ≢ 0
    → (count < (limits_of p).max_accounts → require_accounts true (some p) (some count) ≡ served)
      × ((limits_of p).max_accounts ≤ count
          → require_accounts true (some p) (some count)
            ≡ payment_required max_accounts p (next_plan p))
unfolding require_accounts
require_accounts-limit p count limited = limit_gate (limits_of p).max_accounts count p limited
  where
    limit_gate :
        (limit count : ℕ) (p : Plan)
        → limit ≢ 0
        → (count < limit
            → (if limit == 0 then served else account_gate limit (some count) p) ≡ served)
          × (limit ≤ count
              → (if limit == 0 then served else account_gate limit (some count) p)
                ≡ payment_required max_accounts p (next_plan p))
    limit_gate limit count p l = (λ h. ground arith, λ h. ground arith)
