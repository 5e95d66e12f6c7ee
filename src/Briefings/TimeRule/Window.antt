-- ===== src/Briefings/TimeRule/Window.antt =====
-- The window of a time rule on the circle of the day.
use regent_backend.Base.{ℕ, ◌+◌, ◌-◌, ◌%◌, ◌<◌, ◌≡◌, Option, some, arith, ltb}
use regent_backend.Briefings.TimeRule.{
  HourMinute, TimeCondition, minutes, in_window, zone_of, match_in, match_time,
}

abbrev pub IsClockTime : HourMinute → Type 0
IsClockTime t = (t.hour < 24) × (t.min_of_hour < 60)

-- The minutes from one time of the day forward to another.
abbrev pub forward : HourMinute → HourMinute → ℕ
forward t u = (minutes u + 1_440 - minutes t) % 1_440

in_window-circle :
    (now start end : ℕ)
    → now < 1_440
    → start < 1_440
    → end < 1_440
    → in_window now start end ≡ ltb ((now + 1_440 - start) % 1_440) ((end + 1_440 - start) % 1_440)
unfolding in_window
in_window-circle now start end a b c = ground arith

minutes_lt : (t : HourMinute) → IsClockTime t → minutes t < 1_440
unfolding minutes
minutes_lt t (h, m) = omega (arith, h, m)

-- For bounds that are times of the day, in a location that loads, the rule matches exactly if the way
-- forward from the start to the present is shorter than that to the end, overnight or not; so never,
-- where the two are equal.
pub match_time-forward :
    (utc : ℕ) (load : ℕ → Option (ℕ → HourMinute)) (now : ℕ) (cond : TimeCondition)
    (local : ℕ → HourMinute)
    → load (zone_of utc cond.timezone) ≡ some local
    → IsClockTime (local now)
    → IsClockTime cond.start
    → IsClockTime cond.end
    → match_time utc load now (some cond)
      ≡ ltb (forward cond.start (local now)) (forward cond.start cond.end)
unfolding match_time match_in
match_time-forward utc load now cond local loaded a b c = rw loaded (
    in_window-circle (minutes (local now)) (minutes cond.start) (minutes cond.end)
      (minutes_lt (local now) a) (minutes_lt cond.start b) (minutes_lt cond.end c))
