-- ===== src/Ai/Router/Upgrade.antt =====
-- An upgrade makes no answer cheaper or shorter.
use regent_backend.Base.{◌≤◌, ◌≡◌, refl, ◌⊎◌, inl, inr, true, arith, Bool-cases}
use regent_backend.Ai.Router.{
  TaskType, categorize, prioritize, summarize, draft_reply, premium_draft, embedding,
  preference_synthesis, behavior_analysis, other_task, model_config, get_config, EmailMeta,
  should_upgrade, config_or_default, is_draft, route,
}

-- Whatever the email, a task is routed to a model that costs at least as much and may answer at least
-- as long as its own configuration, and to that one itself unless it drafts a reply to an email that
-- is to be upgraded.
pub route-config_or_default :
    (task : TaskType) (meta : EmailMeta)
    → ((config_or_default task).cost_per_1k ≤ (route task meta).cost_per_1k)
      × ((config_or_default task).max_tokens ≤ (route task meta).max_tokens)
      × ((route task meta ≡ config_or_default task)
          ⊎ ((task ≡ draft_reply) × (should_upgrade meta ≡ true)))
unfolding route config_or_default get_config model_config is_draft
route-config_or_default categorize meta = (omega arith, omega arith, inl refl)
route-config_or_default prioritize meta = (omega arith, omega arith, inl refl)
route-config_or_default summarize meta = (omega arith, omega arith, inl refl)
route-config_or_default draft_reply meta = elim (Bool-cases (should_upgrade meta)) [
  | inl up ↦ rw up (omega arith, omega arith, inr (refl, refl))
  | inr same ↦ rw same (omega arith, omega arith, inl refl)
]
route-config_or_default premium_draft meta = (omega arith, omega arith, inl refl)
route-config_or_default embedding meta = (omega arith, omega arith, inl refl)
route-config_or_default preference_synthesis meta = (omega arith, omega arith, inl refl)
route-config_or_default behavior_analysis meta = (omega arith, omega arith, inl refl)
route-config_or_default (other_task n) meta = (omega arith, omega arith, inl refl)
