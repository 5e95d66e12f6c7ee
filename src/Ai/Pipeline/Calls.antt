-- ===== src/Ai/Pipeline/Calls.antt =====
-- Whom a run of the pipeline calls, against the plan configuration of internal/ai/plan_config.go.
use regent_backend.Base.{
  ◌≡◌, refl, inl, inr, ◌&&◌, not, Option, none, some, List, [], ◌∷◌, ◌++◌, if◌then◌else◌,
  Bool-cases, Table,
}
use regent_backend.Plan.{Plan, free, attache, privy_council, estate, unlisted}
use regent_backend.Ai.Queue.{Job}
use regent_backend.Ai.PlanConfig.{PlanConfig, get_plan_config}
use regent_backend.Ai.Pipeline.{
  categorizing, summarizing, drafting, StatusRow, Writes, Tier, standard, premium, stages_of,
  contains_stage, draft_tier, update_status, Call, to_categorizer, to_summarizer, to_drafter,
  Engines, draft, summarize_stage, after_categorize, with_category, loaded, process, no_message,
}
use regent_backend.Ai.Pipeline.Skip.{
  Email, Categorized, Summarized, cat_failed, no_category, cat_opaque, category, no_summary,
  should_skip_draft,
}
use regent_backend.Ai.Pipeline.Outcome.{categorizes, with_email-with_category}

stages_of-summarize :
    (p : Plan) → contains_stage (stages_of p) summarizing ≡ (get_plan_config p).summarize
unfolding contains_stage stages_of get_plan_config
stages_of-summarize free = refl
stages_of-summarize attache = refl
stages_of-summarize privy_council = refl
stages_of-summarize estate = refl
stages_of-summarize (unlisted n) = refl

stages_of-standard_draft :
    (p : Plan) → contains_stage (stages_of p) drafting ≡ (get_plan_config p).standard_draft
unfolding contains_stage stages_of get_plan_config
stages_of-standard_draft free = refl
stages_of-standard_draft attache = refl
stages_of-standard_draft privy_council = refl
stages_of-standard_draft estate = refl
stages_of-standard_draft (unlisted n) = refl

abbrev pub tier_of : PlanConfig → Tier
tier_of cfg = if cfg.premium_draft then premium else standard

draft_tier-tier_of : (p : Plan) → draft_tier p ≡ tier_of (get_plan_config p)
unfolding draft_tier get_plan_config
draft_tier-tier_of free = refl
draft_tier-tier_of attache = refl
draft_tier-tier_of privy_council = refl
draft_tier-tier_of estate = refl
draft_tier-tier_of (unlisted n) = refl

module _ (w : Writes) (e : Engines) (job : Job) where
  -- The plan's configuration.
  abbrev config : PlanConfig
  config = get_plan_config job.plan

  -- A summary if the plan has them, and a draft of its tier unless the email is skipped.
  abbrev pub allowed_calls : PlanConfig → Email → Categorized → List Call
  allowed_calls cfg email cat =
      let sum = if cfg.summarize then e.summarize email else no_summary in
      (if cfg.summarize then to_summarizer ∷ [] else [])
      ++ (if cfg.standard_draft && not (should_skip_draft email cat sum)
          then to_drafter (tier_of cfg) ∷ []
          else [])

  abbrev pub expected_calls : Option Email → List Call
  expected_calls none = []
  expected_calls (some email) =
      to_categorizer
      ∷ (let cat = e.categorize email job.user_id in
          if categorizes cat then allowed_calls (get_plan_config job.plan) email cat else [])

  draft-calls :
      (email : Email) (cat : Categorized) (sum : Summarized) (t : Table StatusRow)
      → (draft w e job email cat sum t).1 ≡ (
          if (get_plan_config job.plan).standard_draft && not (should_skip_draft email cat sum)
          then to_drafter (tier_of (get_plan_config job.plan)) ∷ []
          else [])
  unfolding draft
  draft-calls email cat sum t =
      rw (stages_of-standard_draft job.plan, draft_tier-tier_of job.plan)
        (elim (Bool-cases (get_plan_config job.plan).standard_draft) [
          | inl y ↦ elim (Bool-cases (should_skip_draft email cat sum)) [
            | inl s ↦ rw (y, s) refl
            | inr n ↦ rw (y, n) refl
          ]
          | inr n ↦ rw n refl
        ])

  summarize_stage-calls :
      (email : Email) (t : Table StatusRow)
      → ((summarize_stage w e job email t).1
          ≡ (if (get_plan_config job.plan).summarize then e.summarize email else no_summary))
        × ((summarize_stage w e job email t).2
            ≡ (if (get_plan_config job.plan).summarize then to_summarizer ∷ [] else []))
  unfolding summarize_stage
  summarize_stage-calls email t =
      rw (stages_of-summarize job.plan) (elim (Bool-cases (get_plan_config job.plan).summarize) [
        | inl y ↦ rw y (refl, refl)
        | inr n ↦ rw n (refl, refl)
      ])

  after_categorize-calls :
      (email : Email) (cat : Categorized) (t : Table StatusRow)
      → (after_categorize w e job email cat (to_categorizer ∷ []) t).calls
        ≡ to_categorizer ∷ allowed_calls (get_plan_config job.plan) email cat
  unfolding after_categorize
  after_categorize-calls email cat t =
      let (t', sum, calls) = summarize_stage w e job email t in
      let (s, q) = summarize_stage-calls email t in rw (draft-calls email cat sum t', s, q) refl

  with_category-calls :
      (email : Email) (cat : Categorized) (t : Table StatusRow)
      → (with_category w e job email cat t).calls
        ≡ to_categorizer
          ∷ (if categorizes cat then allowed_calls (get_plan_config job.plan) email cat else [])
  unfolding with_category
  with_category-calls email cat_failed t = refl
  with_category-calls email no_category t = after_categorize-calls email no_category t
  with_category-calls email cat_opaque t = after_categorize-calls email cat_opaque t
  with_category-calls email (category c) t = after_categorize-calls email (category c) t

  loaded-calls :
      (o : Option Email) (t : Table StatusRow) → (loaded w e job o t).calls ≡ expected_calls o
  unfolding loaded
  loaded-calls none t = refl
  loaded-calls (some email) t = rw (with_email-with_category w e job email t) (
      with_category-calls email (e.categorize email job.user_id)
        (update_status w job categorizing no_message none t))

  -- A run calls what the plan configuration allows, in order: no engine if the email does not load;
  -- else the categorizer; unless it fails, the summarizer if the plan has summaries; and then the
  -- drafter, at the plan's tier, if the plan has drafts and `shouldSkipDraft` gives no reason.
  pub process-expected_calls :
      (t : Table StatusRow) → (process w e job t).calls ≡ expected_calls (e.load_email job.email_id)
  unfolding process
  process-expected_calls t = loaded-calls (e.load_email job.email_id) t
