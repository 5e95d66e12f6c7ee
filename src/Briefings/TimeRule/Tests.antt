-- ===== src/Briefings/TimeRule/Tests.antt =====
-- Quiet hours at concrete inputs.
use regent_backend.Base.{
  ℕ, ◌/◌, ◌%◌, ◌≡◌, refl, true, false, Option, none, some, arith, ltb, ◌==◌, if◌then◌else◌,
}
use regent_backend.Briefings.TimeRule.{HourMinute, TimeCondition, minutes, zone_of, match_time}
use regent_backend.Briefings.TimeRule.Window.{forward, match_time-forward}

abbrev at : ℕ → ℕ → HourMinute
at h m = record { hour = h; min_of_hour = m }

abbrev at_night : TimeCondition
at_night = record { start = at 22 0; end = at 7 0; timezone = none }

abbrev local_time : ℕ → HourMinute
local_time t = at (t / 60 % 24) (t % 60)

abbrev locations : ℕ → Option (ℕ → HourMinute)
locations z = if z == 0 then some local_time else none

three_at_night : match_time 0 locations 180 (some at_night) ≡ true
unfolding match_time minutes
three_at_night = refl

noon_not : match_time 0 locations 720 (some at_night) ≡ false
unfolding match_time minutes
noon_not = refl

match_time-forward_example :
    match_time 0 locations 180 (some at_night)
    ≡ ltb (forward (at 22 0) (at 3 0)) (forward (at 22 0) (at 7 0))
unfolding zone_of
match_time-forward_example =
    match_time-forward 0 locations 180 at_night local_time refl (omega arith, omega arith)
      (omega arith, omega arith) (omega arith, omega arith)
