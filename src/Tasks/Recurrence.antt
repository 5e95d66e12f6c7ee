-- ===== src/Tasks/Recurrence.antt =====
-- internal/tasks/recurrence.go: `ProcessRecurrence`, and `nextOccurrence` of recurring.go. What the Go
-- time package adds for a month is a parameter. Times are seconds.
pub mod Rounds
mod Tests
use regent_backend.Base.{
  ℕ, zero, suc, ◌+◌, ◌*◌, Bool, true, false, Option, none, some, List, [], ◌∷◌, ◌++◌, leb, ◌&&◌,
  not, if◌then◌else◌,
}

pub data Rule : Type 0 where
  daily weekly biweekly monthly : Rule
  -- Any other text, numbered.
  unlisted_rule : ℕ → Rule

-- The columns that the run reads or writes, less those that it copies.
pub record Task : Type 0 where
  pub id : ℕ
  pub recurrence_rule : Option Rule
  pub next_recurrence : Option ℕ
  pub is_dismissed : Bool
  pub deadline : Option ℕ

abbrev pub day : ℕ
day = 86_400

-- Whether the INSERT and the UPDATE for a task are run, and the id that the INSERT returns.
pub record Statements : Type 0 where
  pub insert_ok : ℕ → Bool
  pub update_ok : ℕ → Bool
  pub new_id : ℕ → ℕ

module _ (add_month : ℕ → ℕ) where
  unfoldable pub next_occurrence : Rule → ℕ → ℕ
  next_occurrence daily from = from + day
  next_occurrence weekly from = from + 7 * day
  next_occurrence biweekly from = from + 14 * day
  next_occurrence monthly from = add_month from
  next_occurrence (unlisted_rule n) from = from + 7 * day

  -- The new instance, whose deadline is the next occurrence.
  unfoldable pub new_instance : ℕ → Rule → (from : ℕ) → Task
  unfolding next_occurrence
  new_instance id rule from = record {
    id = id;
    recurrence_rule = some rule;
    next_recurrence = some (next_occurrence rule (next_occurrence rule from));
    is_dismissed = false;
    deadline = some (next_occurrence rule from);
  }

  -- The original, by the UPDATE.
  unfoldable pub moved_on : Task → Rule → (from : ℕ) → Task
  unfolding next_occurrence
  moved_on task rule from = record task {
    next_recurrence = some (next_occurrence rule (next_occurrence rule from));
  }

  unfoldable pub process_due : Statements → Task → Rule → (from : ℕ) → List Task
  unfolding new_instance moved_on
  process_due s task rule from =
      if s.insert_ok task.id
      then (if s.update_ok task.id then moved_on task rule from else task)
        ∷ new_instance (s.new_id task.id) rule from
        ∷ []
      else task ∷ []

  -- The WHERE clause on the two columns, and what is done for a row that it selects.
  unfoldable pub process_columns :
      Statements → (now : ℕ) → Task → Option Rule → Option ℕ → List Task
  unfolding process_due
  process_columns s now task none next = task ∷ []
  process_columns s now task (some rule) none = task ∷ []
  process_columns s now task (some rule) (some from) =
      if leb from now && not task.is_dismissed then process_due s task rule from else task ∷ []

  -- The due tasks are read before any is changed; a row is followed by the instance made of it.
  unfoldable pub process_recurrence : Statements → (now : ℕ) → List Task → List Task
  unfolding process_columns
  process_recurrence s now [] = []
  process_recurrence s now (t ∷ ts) =
      process_columns s now t t.recurrence_rule t.next_recurrence ++ process_recurrence s now ts
