-- ===== src/Calendar.antt =====
-- internal/calendar: conflict detection and slot suggestion. Times are nanoseconds since an epoch;
-- what the Go time package says of a time, in its zone, is a parameter.
pub mod Conflicts
pub mod Slots
pub mod Approval
mod Tests
use regent_backend.Base.{ℕ, ◌+◌, ◌*◌, Bool, Option, List}

abbrev pub minute : ℕ
minute = 60_000_000_000

pub record Clock : Type 0 where
  pub hour_of : ℕ → ℕ
  pub minute_of : ℕ → ℕ
  pub weekday_of : ℕ → ℕ

-- The fields that the modelled code reads. `status` is cut down to whether it is "cancelled".
pub record CalendarEvent : Type 0 where
  pub id : ℕ
  pub user_id : ℕ
  pub tenant_id : ℕ
  pub start_time : ℕ
  pub end_time : ℕ
  pub is_all_day : Bool
  pub is_cancelled : Bool

-- The bounds in minutes of the day, `none` for a text that `time.Parse` refuses.
pub record FocusBlock : Type 0 where
  pub block_start : Option ℕ
  pub block_end : Option ℕ

-- The two lists as they are after `json.Unmarshal`, empty for a nil column.
pub record CalendarPreference : Type 0 where
  pub preferred_start_hour : ℕ
  pub preferred_end_hour : ℕ
  pub buffer_minutes : ℕ
  pub no_meeting_days : List ℕ
  pub focus_blocks : List FocusBlock

-- Hour and minute of a time, in minutes of its day.
unfoldable pub day_minute : Clock → ℕ → ℕ
day_minute c t = c.hour_of t * 60 + c.minute_of t
