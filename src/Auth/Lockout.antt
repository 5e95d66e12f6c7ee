-- ===== src/Auth/Lockout.antt =====
-- internal/auth/lockout.go: the row of auth_lockouts of one email, and the SQL that reads and writes
-- it. Times are nanoseconds.
pub mod Attempts
mod Tests
use regent_backend.Base.{
  ℕ, ◌+◌, ◌*◌, Bool, true, false, Option, none, some, List, [], ◌∷◌, ltb, leb, if◌then◌else◌,
}

abbrev pub max_failed_attempts : ℕ
max_failed_attempts = 10

abbrev pub lockout_duration : ℕ
lockout_duration = 30 * 60_000_000_000

pub record Lockout : Type 0 where
  pub failed_attempts : ℕ
  pub locked_until : Option ℕ

unfoldable pub is_after : (now : ℕ) → Option ℕ → Bool
is_after now none = false
is_after now (some t) = ltb now t

-- False too if the query fails.
unfoldable pub check_locked : (query_ok : Bool) (now : ℕ) → Option Lockout → Bool
unfolding is_after
check_locked false now o = false
check_locked true now none = false
check_locked true now (some row) = is_after now row.locked_until

-- The row after the INSERT ... ON CONFLICT.
unfoldable pub failed_row : (now : ℕ) → Option Lockout → Lockout
failed_row now none = record { failed_attempts = 1; locked_until = none }
failed_row now (some row) = record {
  failed_attempts = row.failed_attempts + 1;
  locked_until =
      if leb max_failed_attempts (row.failed_attempts + 1)
      then some (now + lockout_duration)
      else row.locked_until;
}

-- The row and whether nil is returned.
unfoldable pub record_failure : (exec_ok : Bool) (now : ℕ) → Option Lockout → Option Lockout × Bool
unfolding failed_row
record_failure false now o = (o, false)
record_failure true now o = (some (failed_row now o), true)

unfoldable pub clear_lockout : (exec_ok : Bool) → Option Lockout → Option Lockout × Bool
clear_lockout false o = (o, false)
clear_lockout true o = (none, true)

-- What is done to an email's row: a failure or a success at a time, with whether its SQL is run.
pub data Attempt : Type 0 where
  failure : (exec_ok : Bool) (now : ℕ) → Attempt
  success : (exec_ok : Bool) → Attempt

unfoldable pub attempt : Attempt → Option Lockout → Option Lockout
unfolding record_failure clear_lockout
attempt (failure ok now) o = (record_failure ok now o).0
attempt (success ok) o = (clear_lockout ok o).0

-- In the order of the list.
unfoldable pub attempt_all : List Attempt → Option Lockout → Option Lockout
unfolding attempt
attempt_all [] o = o
attempt_all (a ∷ rest) o = attempt_all rest (attempt a o)
