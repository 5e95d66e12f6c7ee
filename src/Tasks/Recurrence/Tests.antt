-- ===== src/Tasks/Recurrence/Tests.antt =====
-- Recurrence at concrete inputs.
use regent_backend.Base.{ℕ, ◌+◌, ◌*◌, ◌^◌, ◌≡◌, refl, true, false, none, some, [], ◌∷◌, All, length}
use regent_backend.Tasks.Recurrence.{daily, Task, Statements, day}
use regent_backend.Tasks.Recurrence.Rounds.{IsDueAt, run_rounds, due_after, run_rounds-due_after}

abbrev always : Statements
always = record { insert_ok = λ id. true; update_ok = λ id. true; new_id = λ id. id + 1_000 }

abbrev thirty_days : ℕ → ℕ
thirty_days t = t + 30 * day

abbrev water_plants : Task
water_plants = record {
  id = 1;
  recurrence_rule = some daily;
  next_recurrence = some 500;
  is_dismissed = false;
  deadline = none;
}

run_rounds-due_after_example :
    (length (run_rounds thirty_days always daily 3 500 (water_plants ∷ [])) ≡ 2 ^ 3 * 1)
    × All
        (IsDueAt thirty_days always daily (due_after thirty_days always daily 3 500))
        (run_rounds thirty_days always daily 3 500 (water_plants ∷ []))
run_rounds-due_after_example =
    run_rounds-due_after thirty_days always daily 3 500 (water_plants ∷ []) (λ id. (refl, refl))
      ((refl, refl, refl), tt)
