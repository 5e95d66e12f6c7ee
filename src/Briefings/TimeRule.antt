-- ===== src/Briefings/TimeRule.antt =====
-- `matchTime` of internal/briefings/rules_eval.go, for bounds whose "HH:MM" is parsed. The Go time
-- package loads a location, in which a time has an hour and a minute; both are parameters.
pub mod Window
mod Tests
use regent_backend.Base.{
  ℕ, ◌+◌, ◌*◌, Bool, true, false, Option, none, some, ◌&&◌, ◌||◌, ltb, leb, if◌then◌else◌,
}

pub record HourMinute : Type 0 where
  pub hour : ℕ
  pub min_of_hour : ℕ

-- The timezone is none for the empty text, and a number for another.
pub record TimeCondition : Type 0 where
  pub start : HourMinute
  pub end : HourMinute
  pub timezone : Option ℕ

unfoldable pub minutes : HourMinute → ℕ
minutes t = t.hour * 60 + t.min_of_hour

unfoldable pub in_window : (now start end : ℕ) → Bool
in_window now start end =
    if leb start end then leb start now && ltb now end else (leb start now || ltb now end)

unfoldable pub zone_of : (utc : ℕ) → Option ℕ → ℕ
zone_of utc none = utc
zone_of utc (some z) = z

unfoldable pub match_in : TimeCondition → (now : ℕ) → Option (ℕ → HourMinute) → Bool
unfolding in_window minutes
match_in cond now none = false
match_in cond now (some local) =
    in_window (minutes (local now)) (minutes cond.start) (minutes cond.end)

-- `none` for a condition that is no JSON.
unfoldable pub match_time :
    (utc : ℕ) (load : ℕ → Option (ℕ → HourMinute)) → (now : ℕ) → Option TimeCondition → Bool
unfolding match_in zone_of
match_time utc load now none = false
match_time utc load now (some cond) = match_in cond now (load (zone_of utc cond.timezone))
