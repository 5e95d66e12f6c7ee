-- ===== src/Tasks/Recurrence/Rounds.antt =====
-- What repeated runs of `ProcessRecurrence` make of a recurring task.
use regent_backend.Base.{
  ℕ, zero, suc, ◌*◌, ◌^◌, ◌≤◌, ◌≡◌, refl, sym, ap, ◌∙◌, true, false, some, List, [], ◌∷◌, arith,
  All, length,
}
use Prim.Native.Nat.pow
use native.Mathlib.Nat.{mul_assoc}
use regent_backend.Tasks.Recurrence.{
  Rule, Task, Statements, next_occurrence, new_instance, moved_on, process_due, process_columns,
  process_recurrence,
}

twice : (n k : ℕ) → 2 ^ n * (2 * k) ≡ 2 ^ suc n * k
twice n k = sym (mul_assoc (2 ^ n) 2 k) ∙ ap (λ x. x * k) (sym (pow.suc 2 n))

module _ (add_month : ℕ → ℕ) (s : Statements) (rule : Rule) where
  -- An open task of the rule that is due at a time.
  abbrev pub IsDueAt : ℕ → Task → Type 0
  IsDueAt t task =
      (task.recurrence_rule ≡ some rule)
      × (task.next_recurrence ≡ some t)
      × (task.is_dismissed ≡ false)

  -- The SQL of a task is run.
  abbrev pub IsRun : Type 0
  IsRun = (id : ℕ) → (s.insert_ok id ≡ true) × (s.update_ok id ≡ true)

  abbrev pub two_on : ℕ → ℕ
  two_on t = next_occurrence add_month rule (next_occurrence add_month rule t)

  process_columns-due :
      (t now : ℕ) (task : Task)
      → IsRun
      → t ≤ now
      → task.is_dismissed ≡ false
      → process_columns add_month s now task (some rule) (some t)
        ≡ moved_on add_month task rule t ∷ new_instance add_month (s.new_id task.id) rule t ∷ []
  unfolding process_columns process_due
  process_columns-due t now task run late h =
      let (i, u) = run task.id in ground (arith, i, u, late, h)

  process_recurrence-due :
      (t now : ℕ) (tasks : List Task)
      → IsRun
      → t ≤ now
      → All (IsDueAt t) tasks
      → (length (process_recurrence add_month s now tasks) ≡ 2 * length tasks)
        × All (IsDueAt (two_on t)) (process_recurrence add_month s now tasks)
  unfolding process_recurrence
  process_recurrence-due t now [] run late h = (omega arith, tt)
  process_recurrence-due t now (task ∷ rest) run late ((r, n, d), h) =
      let (many, due) = process_recurrence-due t now rest run late h in
      let here =
        ap (λ x. process_columns add_month s now task x task.next_recurrence) r
        ∙ ap (process_columns add_month s now task (some rule)) n
        ∙ process_columns-due t now task run late d in
      rw here (omega (arith, many), ((r, refl, d), ((refl, refl, refl), due)))

  -- Runs at the times that the tasks are due.
  abbrev pub run_rounds : ℕ → (t : ℕ) → List Task → List Task
  run_rounds zero t tasks = tasks
  run_rounds (suc n) t tasks = run_rounds n (two_on t) (process_recurrence add_month s t tasks)

  abbrev pub due_after : ℕ → ℕ → ℕ
  due_after zero t = t
  due_after (suc n) t = due_after n (two_on t)

  -- While the SQL is run, n runs, each at the time at which the tasks are due, make 2^n tasks of each
  -- open task of a rule: every run doubles them, and all of them are due at once again two occurrences
  -- later, the one between being passed over.
  pub run_rounds-due_after :
      (n t : ℕ) (tasks : List Task)
      → IsRun
      → All (IsDueAt t) tasks
      → (length (run_rounds n t tasks) ≡ 2 ^ n * length tasks)
        × All (IsDueAt (due_after n t)) (run_rounds n t tasks)
  run_rounds-due_after zero t tasks run h = (omega arith, h)
  run_rounds-due_after (suc n) t tasks run h =
      let (many, due) = process_recurrence-due t t tasks run (omega arith) h in
      let (all, later) =
        run_rounds-due_after n (two_on t) (process_recurrence add_month s t tasks) run due in
      (all ∙ ap (λ k. 2 ^ n * k) many ∙ twice n (length tasks), later)
