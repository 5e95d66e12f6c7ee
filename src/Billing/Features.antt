-- ===== src/Billing/Features.antt =====
-- internal/billing/features.go and the plan order of internal/billing/config.go.
pub mod Order
use regent_backend.Base.{
  ℕ, ◌+◌, Bool, true, false, Option, none, some, List, [], ◌∷◌, ◌||◌, ◌==◌, leb, if◌then◌else◌,
}
use regent_backend.Plan.{Plan, free, attache, privy_council, estate, unlisted}

pub data Feature : Type 0 where
  email_fetch email_send categorize prioritize : Feature
  summarize draft_reply tone_analysis rag push email_digest basic_behavior : Feature
  premium_draft all_channels full_behavior wellness rules_unlimited briefs : Feature
  calendar_sync scheduling_assist meeting_prep task_extraction task_delegation : Feature
  custom_models dedicated_channels coaching quarterly unlimited_everything : Feature
  -- Any other text, numbered.
  unlisted_feature : ℕ → Feature

-- Texts are told apart by a number for each.
abbrev pub code : Feature → ℕ
code email_fetch = 0
code email_send = 1
code categorize = 2
code prioritize = 3
code summarize = 4
code draft_reply = 5
code tone_analysis = 6
code rag = 7
code push = 8
code email_digest = 9
code basic_behavior = 10
code premium_draft = 11
code all_channels = 12
code full_behavior = 13
code wellness = 14
code rules_unlimited = 15
code briefs = 16
code calendar_sync = 17
code scheduling_assist = 18
code meeting_prep = 19
code task_extraction = 20
code task_delegation = 21
code custom_models = 22
code dedicated_channels = 23
code coaching = 24
code quarterly = 25
code unlimited_everything = 26
code (unlisted_feature n) = 27 + n

-- The map PlanFeatures; a missing key has no features.
unfoldable pub plan_features : Plan → List Feature
plan_features free = email_fetch ∷ email_send ∷ categorize ∷ prioritize ∷ []
plan_features attache =
    email_fetch ∷ email_send ∷ categorize ∷ prioritize ∷ summarize ∷ draft_reply ∷ tone_analysis
    ∷ rag ∷ push ∷ email_digest ∷ basic_behavior ∷ calendar_sync ∷ task_extraction ∷ []
plan_features privy_council =
    email_fetch ∷ email_send ∷ categorize ∷ prioritize ∷ summarize ∷ draft_reply ∷ tone_analysis
    ∷ rag ∷ push ∷ email_digest ∷ basic_behavior ∷ premium_draft ∷ all_channels ∷ full_behavior
    ∷ wellness ∷ rules_unlimited ∷ briefs ∷ calendar_sync ∷ scheduling_assist ∷ meeting_prep
    ∷ task_extraction ∷ task_delegation ∷ []
plan_features estate =
    email_fetch ∷ email_send ∷ categorize ∷ prioritize ∷ summarize ∷ draft_reply ∷ tone_analysis
    ∷ rag ∷ push ∷ email_digest ∷ basic_behavior ∷ premium_draft ∷ all_channels ∷ full_behavior
    ∷ wellness ∷ rules_unlimited ∷ briefs ∷ calendar_sync ∷ scheduling_assist ∷ meeting_prep
    ∷ task_extraction ∷ task_delegation ∷ custom_models ∷ dedicated_channels ∷ coaching ∷ quarterly
    ∷ unlimited_everything ∷ []
plan_features (unlisted n) = []

unfoldable pub contains : List Feature → Feature → Bool
contains [] f = false
contains (g ∷ gs) f = code g == code f || contains gs f

unfoldable pub has_feature : Plan → Feature → Bool
unfolding plan_features contains
has_feature p f = contains (plan_features p) f

-- The map planOrder; 0 for a missing key.
unfoldable pub plan_order : Plan → ℕ
plan_order free = 0
plan_order attache = 1
plan_order privy_council = 2
plan_order estate = 3
plan_order (unlisted n) = 0

unfoldable pub plan_at_least : Plan → Plan → Bool
unfolding plan_order
plan_at_least current minimum = leb (plan_order minimum) (plan_order current)

abbrev pub ordered : List Plan
ordered = free ∷ attache ∷ privy_council ∷ estate ∷ []

-- The loop over the ordered plans.
unfoldable pub first_above : ℕ → Feature → List Plan → Option Plan
first_above current f [] = none
first_above current f (p ∷ ps) =
    let rest = first_above current f ps in
    if leb (plan_order p) current then rest else (if has_feature p f then some p else rest)

-- `none` stands for the empty text.
unfoldable pub suggest_upgrade : Plan → Feature → Option Plan
unfolding first_above
suggest_upgrade current f = first_above (plan_order current) f ordered
