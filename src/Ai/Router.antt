-- ===== src/Ai/Router.antt =====
-- The choice of a model (internal/ai/router.go, and its table in internal/ai/models.go). Models are
-- numbered, temperatures are in tenths, timeouts in seconds, and the shadow cost in 0.00001 of a
-- dollar for 1000 tokens.
pub mod Upgrade
mod Tests
use regent_backend.Base.{ℕ, Bool, true, false, ◌||◌, ◌&&◌, ltb, if◌then◌else◌, Option, none, some}

pub data TaskType : Type 0 where
  categorize prioritize summarize draft_reply premium_draft embedding : TaskType
  preference_synthesis behavior_analysis : TaskType
  other_task : ℕ → TaskType

pub data Model : Type 0 where
  gemma3_4b ministral_3_8b gemma3_12b gpt_oss_120b nomic_embed_text : Model

pub data Tier : Type 0 where
  fast mid quality premium : Tier

pub record ModelConfig : Type 0 where
  pub model : Model
  pub temperature : ℕ
  pub max_tokens : ℕ
  pub timeout : ℕ
  pub cost_per_1k : ℕ
  pub tier : Tier

unfoldable pub model_config : Model → (temperature max_tokens timeout cost : ℕ) → Tier → ModelConfig
model_config model temperature max_tokens timeout cost tier = record {
  model = model;
  temperature = temperature;
  max_tokens = max_tokens;
  timeout = timeout;
  cost_per_1k = cost;
  tier = tier;
}

-- `DefaultModels`, and `GetConfig`.
unfoldable pub get_config : TaskType → Option ModelConfig
get_config categorize = some (model_config gemma3_4b 1 300 30 10 fast)
get_config prioritize = some (model_config gemma3_4b 1 300 30 10 fast)
get_config summarize = some (model_config ministral_3_8b 3 300 45 30 mid)
get_config draft_reply = some (model_config gemma3_12b 6 500 60 50 quality)
get_config premium_draft = some (model_config gpt_oss_120b 4 800 90 300 premium)
get_config embedding = some (model_config nomic_embed_text 0 0 30 5 fast)
get_config preference_synthesis = some (model_config gpt_oss_120b 3 1000 90 300 premium)
get_config behavior_analysis = some (model_config ministral_3_8b 3 500 45 30 mid)
get_config (other_task n) = none

pub data Category : Type 0 where
  legal finance : Category
  other_category : ℕ → Category

pub record EmailMeta : Type 0 where
  pub priority : ℕ
  pub category : Category
  pub sender_is_vip : Bool
  pub user_requested_premium : Bool

unfoldable pub is_sensitive : Category → Bool
is_sensitive legal = true
is_sensitive finance = true
is_sensitive (other_category n) = false

unfoldable pub should_upgrade : EmailMeta → Bool
should_upgrade meta =
    ltb 85 meta.priority
    || is_sensitive meta.category
    || meta.sender_is_vip
    || meta.user_requested_premium

-- A task without a configuration has that of `categorize`.
unfoldable pub config_or_default : TaskType → ModelConfig
config_or_default task = elim (get_config task) [
  | none ↦ model_config gemma3_4b 1 300 30 10 fast
  | some config ↦ config
]

unfoldable pub is_draft : TaskType → Bool
is_draft draft_reply = true
is_draft task = false

unfoldable pub route : TaskType → EmailMeta → ModelConfig
route task meta =
    let upgraded = config_or_default premium_draft in
    if is_draft task && should_upgrade meta then upgraded else config_or_default task
