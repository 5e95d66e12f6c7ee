-- ===== src/Calendar/Tests.antt =====
-- Conflicts and slots at concrete inputs.
use regent_backend.Base.{ℕ, ◌+◌, ◌*◌, ◌/◌, ◌%◌, ◌≡◌, refl, ◌⊎◌, false, some, List, [], ◌∷◌, arith}
use mathlib.Core.List.{Memᴰ}
use regent_backend.Calendar.{minute, Clock, CalendarEvent, CalendarPreference}
use regent_backend.Calendar.Conflicts.{
  Conflict, filter_active, insert, sort, conflict, hard, soft, detect_conflicts, detect_sorted,
  scan, preference_conflicts,
}
use regent_backend.Calendar.Conflicts.Scan.{detect_all, detect_conflicts-detect_all}
use regent_backend.Calendar.Conflicts.Pairs.{first}
use regent_backend.Calendar.Conflicts.Overlaps.{Reported, detect_conflicts-Clash}
use regent_backend.Calendar.Slots.{
  SlotConfig, SlotRequest, TimeSlot, Suggested, suggested, unfinished, suggest_slots, slot_at,
  duration_of, hour, day, candidates, is_candidate,
}
use regent_backend.Calendar.Slots

-- Days of 24 hours from the epoch, which is a Sunday.
abbrev utc : Clock
utc = record {
  hour_of = λ t. t / hour % 24;
  minute_of = λ t. t / minute % 60;
  weekday_of = λ t. t / day % 7;
}

abbrev office : CalendarPreference
office = record {
  preferred_start_hour = 9;
  preferred_end_hour = 17;
  buffer_minutes = 10;
  no_meeting_days = 6 ∷ [];
  focus_blocks = [];
}

abbrev event : (id start end : ℕ) → CalendarEvent
event id start end = record {
  id = id;
  user_id = 1;
  tenant_id = 1;
  start_time = start * minute;
  end_time = end * minute;
  is_all_day = false;
  is_cancelled = false;
}

abbrev calls : List CalendarEvent
calls = event 1 620 650 ∷ event 2 600 630 ∷ event 3 655 680 ∷ []

abbrev found_in_calls : List Conflict
found_in_calls = conflict (event 2 600 630) (hard 1 10) ∷ conflict (event 1 620 650) (soft 3 5) ∷ []

calls_conflict : detect_conflicts utc office calls ≡ found_in_calls
unfolding detect_conflicts detect_sorted scan preference_conflicts filter_active sort insert
    conflict
calls_conflict = refl

-- Half an hour within three hours is reported as two.
nested :
    detect_conflicts utc office (event 1 540 720 ∷ event 2 600 630 ∷ [])
    ≡ conflict (event 1 540 720) (hard 2 120) ∷ []
unfolding detect_conflicts detect_sorted scan preference_conflicts filter_active sort insert
    conflict
nested = refl

detect_conflicts-detect_all_example :
    detect_conflicts utc office calls ≡ detect_all utc office (sort (filter_active calls))
detect_conflicts-detect_all_example = detect_conflicts-detect_all utc office calls

detect_conflicts-Clash_example :
    Reported (event 1 620 650) (event 2 600 630) (detect_conflicts utc office calls)
    ⊎ Reported (event 2 600 630) (event 1 620 650) (detect_conflicts utc office calls)
detect_conflicts-Clash_example =
    detect_conflicts-Clash utc office (event 1 620 650) (event 2 600 630) calls
      (record {
        a_active = refl;
        b_active = refl;
        a_timed = refl;
        b_timed = refl;
        a_first = omega arith;
        b_first = omega arith;
      })
      (first refl (Memᴰ.head refl))

abbrev hourly : SlotConfig
hourly = record { slot_increment_minutes = 60; max_slot_suggestions = 2 }

abbrev never_advances : SlotConfig
never_advances = record { slot_increment_minutes = 0; max_slot_suggestions = 2 }

-- The morning of Monday, from 8 to 13.
abbrev monday : SlotRequest
monday = record {
  preferred_start = some (day + 8 * hour);
  preferred_end = some (day + 13 * hour);
  duration_minutes = 0;
}

-- Ten o'clock to half past on Monday.
abbrev busy : List CalendarEvent
busy = event 1 (34 * 60) (34 * 60 + 30) ∷ []

abbrev later_is_better : TimeSlot → ℕ
later_is_better s = s.start / hour

-- Eight is before hours, ten and (within the buffer) nine are busy.
latest_first :
    suggest_slots 10 utc hourly later_is_better 0 monday (some office) (λ s t. some busy)
    ≡ suggested (
        record { slot = slot_at hour (day + 12 * hour); score = 36 }
        ∷ record { slot = slot_at hour (day + 11 * hour); score = 35 }
        ∷ [])
unfolding suggest_slots candidates is_candidate Slots.rank Slots.insert slot_at
latest_first = refl

-- The slot is the hour of the stored event.
abbrev taken : TimeSlot
taken = record { start = 2040 * minute; end = 2070 * minute }
