-- ===== src/Billing/Features/Order.antt =====
-- A higher plan has the features of a lower one, and the upgrade suggested is the least that serves.
use regent_backend.Base.{
  ℕ, ◌≤◌, ◌<◌, ◌≡◌, refl, inl, inr, Bool, true, false, Option, none, some, List, [], ◌∷◌, ◌&&◌, leb,
  arith, Bool-cases, All,
}
use regent_backend.Plan.{Plan, free, attache, privy_council, estate, unlisted}
use regent_backend.Billing.Features.{
  Feature, code, plan_features, contains, has_feature, plan_order, plan_at_least, ordered,
  first_above, suggest_upgrade,
}

is_subset : List Feature → List Feature → Bool
is_subset [] gs = true
is_subset (f ∷ fs) gs = contains gs f && is_subset fs gs

contains-code :
    (gs : List Feature) (f g : Feature) → code f ≡ code g → contains gs f ≡ contains gs g
unfolding contains
contains-code [] f g e = refl
contains-code (h ∷ gs) f g e = rw (e, contains-code gs f g e)

is_subset-contains :
    (fs gs : List Feature) (f : Feature)
    → is_subset fs gs ≡ true
    → contains fs f ≡ true
    → contains gs f ≡ true
unfolding is_subset contains
is_subset-contains [] gs f s h = cc
is_subset-contains (g ∷ fs) gs f s h =
    ground (arith, contains-code gs g f, is_subset-contains fs gs f)

-- A plan that the source lists.
abbrev pub IsListed : Plan → Type 0
IsListed (unlisted n) = ⊥
IsListed _ = Unit

plan_features-subset :
    (p q : Plan)
    → IsListed q
    → plan_order p ≤ plan_order q
    → is_subset (plan_features p) (plan_features q) ≡ true
unfolding plan_features plan_order is_subset contains
plan_features-subset (unlisted n) q l h = refl
plan_features-subset free free l h = refl
plan_features-subset free attache l h = refl
plan_features-subset free privy_council l h = refl
plan_features-subset free estate l h = refl
plan_features-subset attache attache l h = refl
plan_features-subset attache privy_council l h = refl
plan_features-subset attache estate l h = refl
plan_features-subset privy_council privy_council l h = refl
plan_features-subset privy_council estate l h = refl
plan_features-subset estate estate l h = refl
plan_features-subset p (unlisted n) l h = absurd l
plan_features-subset attache free l h = absurd (omega arith)
plan_features-subset privy_council free l h = absurd (omega arith)
plan_features-subset privy_council attache l h = absurd (omega arith)
plan_features-subset estate free l h = absurd (omega arith)
plan_features-subset estate attache l h = absurd (omega arith)
plan_features-subset estate privy_council l h = absurd (omega arith)

-- A listed plan that is at least another has every feature of that one.
pub has_feature-plan_at_least :
    (p q : Plan) (f : Feature)
    → IsListed q
    → plan_at_least q p ≡ true
    → has_feature p f ≡ true
    → has_feature q f ≡ true
unfolding has_feature plan_at_least
has_feature-plan_at_least p q f l h has =
    is_subset-contains (plan_features p) (plan_features q) f
      (plan_features-subset p q l (ground arith)) has

abbrev pub Answers : ℕ → Feature → List Plan → Option Plan → Type 0
Answers n f ps none = All (λ r. n < plan_order r → has_feature r f ≡ false) ps
Answers n f ps (some q) =
    (n < plan_order q)
    × (has_feature q f ≡ true)
    × All (λ r. n < plan_order r → has_feature r f ≡ true → plan_order q ≤ plan_order r) ps

Answers-cons :
    (n : ℕ) (f : Feature) (p : Plan) (ps : List Plan) (o : Option Plan)
    → (n < plan_order p → has_feature p f ≡ false)
    → Answers n f ps o
    → Answers n f (p ∷ ps) o
Answers-cons n f p ps none skip a = (skip, a)
Answers-cons n f p ps (some q) skip (above, has, least) =
    (above, has, (λ h k. (let off = skip h in cc), least))

IsAscending : List Plan → Type 0
IsAscending [] = Unit
IsAscending (p ∷ ps) = All (λ r. plan_order p ≤ plan_order r) ps × IsAscending ps

All-least :
    (n : ℕ) (f : Feature) (k : ℕ) (ps : List Plan)
    → All (λ r. k ≤ plan_order r) ps
    → All (λ r. n < plan_order r → has_feature r f ≡ true → k ≤ plan_order r) ps
All-least n f k [] h = tt
All-least n f k (p ∷ ps) h = ((λ _ _. h.0), All-least n f k ps h.1)

first_above-Answers :
    (n : ℕ) (f : Feature) (ps : List Plan) → IsAscending ps → Answers n f ps (first_above n f ps)
unfolding first_above IsAscending
first_above-Answers n f [] a = tt
first_above-Answers n f (p ∷ ps) a = elim (Bool-cases (leb (plan_order p) n)) [
  | inl low ↦ rw low (
      Answers-cons n f p ps (first_above n f ps) (λ h. absurd (ground arith))
        (first_above-Answers n f ps a.1))
  | inr high ↦ elim (Bool-cases (has_feature p f)) [
    | inl has ↦
        rw (high, has)
          (ground arith, has, ((λ _ _. omega arith), All-least n f (plan_order p) ps a.0))
    | inr lacks ↦
        rw (high, lacks)
          (Answers-cons n f p ps (first_above n f ps) (λ _. lacks) (first_above-Answers n f ps a.1))
  ]
]

-- The suggested upgrade is a listed plan above the current one that has the feature, and no listed
-- plan between the two has it; where none is suggested, no listed plan above has the feature.
pub suggest_upgrade-Answers :
    (current : Plan) (f : Feature)
    → Answers (plan_order current) f ordered (suggest_upgrade current f)
unfolding suggest_upgrade
suggest_upgrade-Answers current f =
    first_above-Answers (plan_order current) f ordered
      (unfold IsAscending plan_order in omega arith)
