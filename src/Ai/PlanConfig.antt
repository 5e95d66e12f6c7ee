-- ===== src/Ai/PlanConfig.antt =====
-- internal/ai/plan_config.go: what each plan may ask of the engines.
use regent_backend.Base.{Bool, true, false}
use regent_backend.Plan.{Plan, free, attache, privy_council, estate, unlisted}

pub record PlanConfig : Type 0 where
  pub plan : Plan
  pub categorize : Bool
  pub summarize : Bool
  pub standard_draft : Bool
  pub premium_draft : Bool
  pub auto_premium : Bool
  pub premium_default : Bool

-- The entry "free".
unfoldable pub free_config : PlanConfig
free_config = record {
  plan = free;
  categorize = true;
  summarize = false;
  standard_draft = false;
  premium_draft = false;
  auto_premium = false;
  premium_default = false;
}

-- The map PlanConfigs, with the entry "free" for a missing key.
unfoldable pub get_plan_config : Plan → PlanConfig
unfolding free_config
get_plan_config free = free_config
get_plan_config attache = record free_config {
  plan = attache;
  summarize = true;
  standard_draft = true;
}
get_plan_config privy_council = record free_config {
  plan = privy_council;
  summarize = true;
  standard_draft = true;
  premium_draft = true;
  auto_premium = true;
}
get_plan_config estate = record free_config {
  plan = estate;
  summarize = true;
  standard_draft = true;
  premium_draft = true;
  premium_default = true;
}
get_plan_config (unlisted n) = free_config
