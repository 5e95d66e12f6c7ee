-- ===== src/Ai/Pipeline/Outcome.antt =====
-- How a run of the pipeline ends, whom it calls, and what it leaves alone.
use regent_backend.Base.{
  ℕ, ◌≡◌, refl, ◌≢◌, inl, inr, Bool, true, false, Option, none, some, List, [], ◌∷◌, arith,
  if◌then◌else◌, Bool-cases, Table,
}
use regent_backend.Plan.{Plan, free, attache, privy_council, estate, unlisted}
use regent_backend.Ai.Queue.{Job}
use regent_backend.Ai.Pipeline.{
  Stage, categorizing, complete, error, StatusRow, Writes, Message, stages_of, contains_stage,
  completed, upsert, update_status, Call, to_categorizer, Engines, draft, summarize_stage,
  after_categorize, with_category, with_email, loaded, process, no_message, load_message,
  categorize_message,
}
use regent_backend.Ai.Pipeline.Skip.{
  Email, Categorized, cat_failed, no_category, cat_opaque, category,
}

-- Whether the run gets past the load and the categorization.
abbrev pub categorizes : Categorized → Bool
categorizes cat_failed = false
categorizes no_category = true
categorizes cat_opaque = true
categorizes (category c) = true

abbrev pub loads : Engines → Job → Option Email → Bool
loads e job none = false
loads e job (some email) = categorizes (e.categorize email job.user_id)

-- The row of the job's email tells that a stage was reached, and when.
abbrev pub Reached : Writes → Job → Stage → Table StatusRow → Type 0
Reached w job s t =
    (row : StatusRow) × (t job.email_id ≡ some row)
    × (row.stage ≡ s)
    × (row.completed_at ≡ completed s (w.time s))

upsert-stage :
    (job : Job) (s : Stage) (msg : Message) (reason : Option Stage) (now : ℕ) (o : Option StatusRow)
    → ((upsert job s msg reason now o).stage ≡ s)
      × ((upsert job s msg reason now o).completed_at ≡ completed s now)
unfolding upsert
upsert-stage job s msg reason now none = (refl, refl)
upsert-stage job s msg reason now (some row) = (refl, refl)

module _ (w : Writes) (job : Job) where
  pub update_status-own :
      (s : Stage) (msg : Message) (reason : Option Stage) (t : Table StatusRow)
      → w.saved s ≡ true
      → update_status w job s msg reason t job.email_id
        ≡ some (upsert job s msg reason (w.time s) (t job.email_id))
  unfolding update_status
  update_status-own s msg reason t h = ground (arith, h)

  pub update_status-other :
      (s : Stage) (msg : Message) (reason : Option Stage) (t : Table StatusRow) (i : ℕ)
      → i ≢ job.email_id
      → update_status w job s msg reason t i ≡ t i
  unfolding update_status
  update_status-other s msg reason t i h = elim (Bool-cases (w.saved s)) [
    | inl y ↦ rw y (ground (arith, h))
    | inr n ↦ rw n refl
  ]

  update_status-Reached :
      (s : Stage) (msg : Message) (reason : Option Stage) (t : Table StatusRow)
      → w.saved s ≡ true
      → Reached w job s (update_status w job s msg reason t)
  update_status-Reached s msg reason t h =
      let (at_stage, at_time) = upsert-stage job s msg reason (w.time s) (t job.email_id) in
      (
        upsert job s msg reason (w.time s) (t job.email_id),
        update_status-own s msg reason t h,
        at_stage,
        at_time,
      )

stages_of-categorizing : (p : Plan) → contains_stage (stages_of p) categorizing ≡ true
unfolding contains_stage stages_of
stages_of-categorizing free = refl
stages_of-categorizing attache = refl
stages_of-categorizing privy_council = refl
stages_of-categorizing estate = refl
stages_of-categorizing (unlisted n) = refl

module _ (w : Writes) (e : Engines) (job : Job) where
  with_category-ok :
      (email : Email) (cat : Categorized) (t : Table StatusRow)
      → (with_category w e job email cat t).ok ≡ categorizes cat
  unfolding with_category after_categorize
  with_category-ok email cat_failed t = refl
  with_category-ok email no_category t = refl
  with_category-ok email cat_opaque t = refl
  with_category-ok email (category c) t = refl

  after_categorize-Reached :
      (email : Email) (cat : Categorized) (calls : List Call) (t : Table StatusRow)
      → w.saved complete ≡ true
      → Reached w job complete (after_categorize w e job email cat calls t).statuses
  unfolding after_categorize
  after_categorize-Reached email cat calls t c =
      let (t', sum, more) = summarize_stage w e job email t in
      update_status-Reached w job complete no_message none (draft w e job email cat sum t').0 c

  with_category-Reached :
      (email : Email) (cat : Categorized) (t : Table StatusRow)
      → w.saved complete ≡ true
      → w.saved error ≡ true
      → Reached w job
          (if categorizes cat then complete else error)
          (with_category w e job email cat t).statuses
  unfolding with_category
  with_category-Reached email cat_failed t c f =
      update_status-Reached w job error categorize_message (some categorizing) t f
  with_category-Reached email no_category t c f =
      after_categorize-Reached email no_category (to_categorizer ∷ []) t c
  with_category-Reached email cat_opaque t c f =
      after_categorize-Reached email cat_opaque (to_categorizer ∷ []) t c
  with_category-Reached email (category x) t c f =
      after_categorize-Reached email (category x) (to_categorizer ∷ []) t c

  -- Every plan has the first stage.
  pub with_email-with_category :
      (email : Email) (t : Table StatusRow)
      → with_email w e job email t
        ≡ with_category w e job email
            (e.categorize email job.user_id)
            (update_status w job categorizing no_message none t)
  unfolding with_email
  with_email-with_category email t = rw (stages_of-categorizing job.plan) refl

  loaded-Reached :
      (o : Option Email) (t : Table StatusRow)
      → w.saved complete ≡ true
      → w.saved error ≡ true
      → ((loaded w e job o t).ok ≡ loads e job o)
        × Reached w job (if loads e job o then complete else error) (loaded w e job o t).statuses
  unfolding loaded
  loaded-Reached none t c f = (refl, update_status-Reached w job error load_message none t f)
  loaded-Reached (some email) t c f =
      let cat = e.categorize email job.user_id in
      let t' = update_status w job categorizing no_message none t in
      rw (with_email-with_category email t)
        (with_category-ok email cat t', with_category-Reached email cat t' c f)

  -- If the writes of the statuses complete and error are saved, `Process` returns nil exactly when
  -- the email loads and is categorized, whatever the summarizer and the drafter do, and the status
  -- is then complete, and error otherwise.
  pub process-Reached :
      (t : Table StatusRow)
      → w.saved complete ≡ true
      → w.saved error ≡ true
      → ((process w e job t).ok ≡ loads e job (e.load_email job.email_id))
        × Reached w job
            (if loads e job (e.load_email job.email_id) then complete else error)
            (process w e job t).statuses
  unfolding process
  process-Reached t c f = loaded-Reached (e.load_email job.email_id) t c f
