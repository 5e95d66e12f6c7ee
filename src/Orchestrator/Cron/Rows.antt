-- ===== src/Orchestrator/Cron/Rows.antt =====
-- The rows of cron_jobs under the writes of a run.
use regent_backend.Base.{
  ℕ, ◌+◌, ◌≡◌, refl, sym, ap, ◌∙◌, inl, inr, true, false, Option, none, some, List, [], ◌∷◌, ◌==◌,
  if◌then◌else◌, Bool-cases, ==_iff,
}
use mathlib.Core.Option
use regent_backend.Orchestrator.Cron.Jobs.{JobType, same_job, job_code, get_job_interval}
use regent_backend.Orchestrator.Cron.{
  JobStatus, JobRow, upsert, update_job_status, update_job_result,
}

unfoldable pub find_row : JobType → List JobRow → Option JobRow
find_row j [] = none
find_row j (r ∷ rest) = let more = find_row j rest in if same_job r.job_type j then some r else more

pub same_job_self : (j : JobType) → same_job j j ≡ true
unfolding same_job
same_job_self j = (==_iff (job_code j) (job_code j)).1 refl

pub same_job_right : (i j k : JobType) → same_job i j ≡ true → same_job k i ≡ same_job k j
unfolding same_job
same_job_right i j k h = ap (λ c. job_code k == c) ((==_iff (job_code i) (job_code j)).0 h)

pub same_job_left : (i j k : JobType) → same_job i j ≡ true → same_job i k ≡ same_job j k
unfolding same_job
same_job_left i j k h = ap (λ c. c == job_code k) ((==_iff (job_code i) (job_code j)).0 h)

-- The changes of the scheduler keep the job of a row.
abbrev KeepsJob : (JobRow → JobRow) → Type 0
KeepsJob change =
    (r : JobRow) (j : JobType) → same_job (change r).job_type j ≡ same_job r.job_type j

pub find_row-upsert_same :
    (fresh : JobRow) (change : JobRow → JobRow) (j : JobType)
    → KeepsJob change
    → same_job fresh.job_type j ≡ true
    → (rows : List JobRow) (r : JobRow) → find_row j rows ≡ some r
    → find_row j (upsert fresh change rows) ≡ some (change r)
unfolding find_row upsert
find_row-upsert_same fresh change j keeps same [] r h = cc (h)
find_row-upsert_same fresh change j keeps same (q ∷ rest) r h =
    let test = same_job_right fresh.job_type j q.job_type same in
    elim (Bool-cases (same_job q.job_type j)) [
      | inl mine ↦
          (let found : some q ≡ some r =
              ap (λ b. if b then some q else find_row j rest) (sym mine) ∙ h in
            rw (test, mine, keeps q j, mine) (ap (Option.map change) found))
      | inr not_mine ↦
          (let below = ap (λ b. if b then some q else find_row j rest) (sym not_mine) ∙ h in
            rw (test, not_mine, not_mine)
              (find_row-upsert_same fresh change j keeps same rest r below))
    ]

pub find_row-upsert_other :
    (fresh : JobRow) (change : JobRow → JobRow) (j : JobType)
    → KeepsJob change
    → same_job fresh.job_type j ≡ false
    → (rows : List JobRow) → find_row j (upsert fresh change rows) ≡ find_row j rows
unfolding find_row upsert
find_row-upsert_other fresh change j keeps other [] = rw other refl
find_row-upsert_other fresh change j keeps other (q ∷ rest) =
    elim (Bool-cases (same_job q.job_type fresh.job_type)) [
      | inl mine ↦
          (let not_mine = same_job_left q.job_type fresh.job_type j mine ∙ other in
            rw (mine, keeps q j, not_mine) refl)
      | inr not_mine ↦ rw not_mine (
          ap (λ o. if same_job q.job_type j then some q else o)
            (find_row-upsert_other fresh change j keeps other rest))
    ]

-- What the two writes of a run make of the row of its job.
pub update_job_status-find_row :
    (j : JobType) (status : JobStatus) (message : Option ℕ) (rows : List JobRow) (r : JobRow)
    → find_row j rows ≡ some r
    → find_row j (update_job_status j status message rows)
      ≡ some (record r { status = status; error_message = message })
unfolding update_job_status
update_job_status-find_row j status message rows r h =
    find_row-upsert_same _ _ j (λ q k. refl) (same_job_self j) rows r h

pub update_job_status-find_row_other :
    (i j : JobType) (status : JobStatus) (message : Option ℕ) (rows : List JobRow)
    → same_job i j ≡ false
    → find_row j (update_job_status i status message rows) ≡ find_row j rows
unfolding update_job_status
update_job_status-find_row_other i j status message rows other =
    find_row-upsert_other _ _ j (λ q k. refl) other rows

pub update_job_result-find_row :
    (now : ℕ) (j : JobType) (status : JobStatus) (duration : ℕ) (message : Option ℕ)
    (rows : List JobRow) (r : JobRow)
    → find_row j rows ≡ some r
    → find_row j (update_job_result now j status duration message rows)
      ≡ some (record r {
        status = status;
        last_run = some now;
        next_run = some (now + get_job_interval j);
        duration_ms = some duration;
        error_message = message;
      })
unfolding update_job_result
update_job_result-find_row now j status duration message rows r h =
    find_row-upsert_same _ _ j (λ q k. refl) (same_job_self j) rows r h

pub update_job_result-find_row_other :
    (now : ℕ) (i j : JobType) (status : JobStatus) (duration : ℕ) (message : Option ℕ)
    (rows : List JobRow)
    → same_job i j ≡ false
    → find_row j (update_job_result now i status duration message rows) ≡ find_row j rows
unfolding update_job_result
update_job_result-find_row_other now i j status duration message rows other =
    find_row-upsert_other _ _ j (λ q k. refl) other rows
