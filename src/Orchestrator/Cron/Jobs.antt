-- ===== src/Orchestrator/Cron/Jobs.antt =====
-- The job types of internal/orchestrator/cron.go and their intervals, in milliseconds.
use regent_backend.Base.{
  ℕ, suc, ◌+◌, ◌-◌, ◌*◌, ◌≤◌, ◌≡◌, refl, sym, ap, ◌∙◌, subst, Bool, true, none, some, List, [], ◌∷◌,
  arith, ltb, ◌==◌, ==_iff, get_elem?,
}

pub data JobType : Type 0 where
  email_poll ai_queue token_aggregation nightly_batch email_digest : JobType
  grace_period_check trial_expiry_check nightly_behavior weekly_wellness_report : JobType
  calendar_sync meeting_lifecycle task_reminders task_digest : JobType
  task_delegation_followup task_recurrence : JobType
  -- Any other text in the column.
  unknown : ℕ → JobType

unfoldable pub job_code : JobType → ℕ
job_code email_poll = 0
job_code ai_queue = 1
job_code token_aggregation = 2
job_code nightly_batch = 3
job_code email_digest = 4
job_code grace_period_check = 5
job_code trial_expiry_check = 6
job_code nightly_behavior = 7
job_code weekly_wellness_report = 8
job_code calendar_sync = 9
job_code meeting_lifecycle = 10
job_code task_reminders = 11
job_code task_digest = 12
job_code task_delegation_followup = 13
job_code task_recurrence = 14
job_code (unknown n) = 15 + n

unfoldable pub same_job : JobType → JobType → Bool
same_job i j = job_code i == job_code j

-- Whether `jobFuncs` has the job.
unfoldable pub known : JobType → Bool
known j = ltb (job_code j) 15

abbrev minutes : ℕ → ℕ
minutes n = n * 60000

unfoldable pub get_job_interval : JobType → ℕ
get_job_interval email_poll = minutes 2
get_job_interval ai_queue = minutes 5
get_job_interval token_aggregation = minutes 60
get_job_interval nightly_batch = minutes 1440
get_job_interval email_digest = minutes 360
get_job_interval grace_period_check = minutes 1440
get_job_interval trial_expiry_check = minutes 1440
get_job_interval nightly_behavior = minutes 1440
get_job_interval weekly_wellness_report = minutes 10080
get_job_interval calendar_sync = minutes 5
get_job_interval meeting_lifecycle = minutes 1
get_job_interval task_reminders = minutes 15
get_job_interval task_digest = minutes 1440
get_job_interval task_delegation_followup = minutes 360
get_job_interval task_recurrence = minutes 60
get_job_interval (unknown n) = minutes 2

-- The jobs that `Run` has tickers for, in their order.
abbrev pub jobs : List JobType
jobs =
    email_poll
    ∷ (ai_queue
        ∷ (token_aggregation
            ∷ (nightly_batch
                ∷ (email_digest
                    ∷ (grace_period_check
                        ∷ (trial_expiry_check
                            ∷ (nightly_behavior
                                ∷ (weekly_wellness_report
                                    ∷ (calendar_sync
                                        ∷ (meeting_lifecycle
                                            ∷ (task_reminders
                                                ∷ (task_digest
                                                    ∷ (task_delegation_followup
                                                        ∷ (task_recurrence ∷ []))))))))))))))

-- An interval is at least a minute.
pub get_job_interval-bound : (j : JobType) → 60000 ≤ get_job_interval j
unfolding get_job_interval
get_job_interval-bound = elim [
  | email_poll ↦ omega arith
  | ai_queue ↦ omega arith
  | token_aggregation ↦ omega arith
  | nightly_batch ↦ omega arith
  | email_digest ↦ omega arith
  | grace_period_check ↦ omega arith
  | trial_expiry_check ↦ omega arith
  | nightly_behavior ↦ omega arith
  | weekly_wellness_report ↦ omega arith
  | calendar_sync ↦ omega arith
  | meeting_lifecycle ↦ omega arith
  | task_reminders ↦ omega arith
  | task_digest ↦ omega arith
  | task_delegation_followup ↦ omega arith
  | task_recurrence ↦ omega arith
  | unknown n ↦ omega arith
]

of_code : ℕ → JobType
of_code c = elim (get_elem? jobs c) [ none ↦ unknown (c - 15) | some j ↦ j ]

of_code-unknown : (n : ℕ) → of_code (15 + n) ≡ unknown n
unfolding of_code
of_code-unknown n =
    let code : ℕ =
      suc (suc (suc (suc (suc (suc (suc (suc (suc (suc (suc (suc (suc (suc (suc n)))))))))))))) in
    let same : code ≡ 15 + n = omega arith in
    let back : code - 15 ≡ n = omega arith in
    subst (λ c. of_code c ≡ unknown n) same (ap unknown back)

of_code-job_code : (j : JobType) → of_code (job_code j) ≡ j
unfolding of_code job_code
of_code-job_code = elim [
  | email_poll ↦ refl
  | ai_queue ↦ refl
  | token_aggregation ↦ refl
  | nightly_batch ↦ refl
  | email_digest ↦ refl
  | grace_period_check ↦ refl
  | trial_expiry_check ↦ refl
  | nightly_behavior ↦ refl
  | weekly_wellness_report ↦ refl
  | calendar_sync ↦ refl
  | meeting_lifecycle ↦ refl
  | task_reminders ↦ refl
  | task_digest ↦ refl
  | task_delegation_followup ↦ refl
  | task_recurrence ↦ refl
  | unknown n ↦ of_code-unknown n
]

pub same_job_eq : (i j : JobType) → same_job i j ≡ true → i ≡ j
unfolding same_job
same_job_eq i j h =
    let codes_agree : job_code i ≡ job_code j = (==_iff (job_code i) (job_code j)).0 h in
    sym (of_code-job_code i) ∙ ap of_code codes_agree ∙ of_code-job_code j
