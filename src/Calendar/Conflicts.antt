-- ===== src/Calendar/Conflicts.antt =====
-- internal/calendar/conflicts.go: `DetectConflicts`. The texts `Detail` are left out, and `Type` and
-- `Severity` are one constructor.
pub mod Scan
pub mod Pairs
pub mod Overlaps
use regent_backend.Base.{
  ℕ, ◌+◌, ◌-◌, ◌*◌, ◌/◌, Bool, true, false, Option, none, some, List, [], ◌∷◌, ◌++◌, map, ◌&&◌,
  ◌||◌, ltb, ◌==◌, if◌then◌else◌,
}
use regent_backend.Calendar.{
  minute, Clock, CalendarEvent, FocusBlock, CalendarPreference, day_minute,
}

pub data Violation : Type 0 where
  early_start late_end no_meeting_day : Violation
  focus_overlap : (block_start block_end : ℕ) → Violation

pub data Found : Type 0 where
  -- With the event that comes later, and the minutes from its start to the end of the first, or of the gap.
  hard : (event_b overlap_min : ℕ) → Found
  soft : (event_b gap_min : ℕ) → Found
  preference : Violation → Found

pub record Conflict : Type 0 where
  pub user_id : ℕ
  pub tenant_id : ℕ
  pub event_a : ℕ
  pub found : Found

unfoldable pub conflict : CalendarEvent → Found → Conflict
conflict e f = record { user_id = e.user_id; tenant_id = e.tenant_id; event_a = e.id; found = f }

unfoldable pub filter_active : List CalendarEvent → List CalendarEvent
filter_active [] = []
filter_active (e ∷ es) = let rest = filter_active es in if e.is_cancelled then rest else e ∷ rest

-- `sort.Slice` promises no order among equal starts; this one is stable.
unfoldable pub insert : CalendarEvent → List CalendarEvent → List CalendarEvent
insert e [] = e ∷ []
insert e (f ∷ fs) =
    let rest = insert e fs in if ltb f.start_time e.start_time then f ∷ rest else e ∷ f ∷ fs

unfoldable pub sort : List CalendarEvent → List CalendarEvent
unfolding insert
sort [] = []
sort (e ∷ es) = insert e (sort es)

unfoldable pub falls_on : ℕ → List ℕ → Bool
falls_on d [] = false
falls_on d (n ∷ ns) = d == n || falls_on d ns

-- One focus block, whose bounds both parse or which is passed over.
unfoldable pub block_violation :
    (event_start event_end : ℕ) → Option ℕ → Option ℕ → List Violation → List Violation
block_violation s t (some p) (some q) rest =
    if ltb s q && ltb p t then focus_overlap p q ∷ rest else rest
block_violation s t (some p) none rest = rest
block_violation s t none q rest = rest

unfoldable pub check_blocks : (event_start event_end : ℕ) → List FocusBlock → List Violation
unfolding block_violation
check_blocks s t [] = []
check_blocks s t (b ∷ bs) = block_violation s t b.block_start b.block_end (check_blocks s t bs)

unfoldable pub when : Bool → Violation → List Violation
when true v = v ∷ []
when false v = []

unfoldable pub check_preferences : Clock → CalendarPreference → CalendarEvent → List Violation
unfolding when falls_on check_blocks day_minute
check_preferences c p e =
    if e.is_all_day
    then []
    else (when (ltb (c.hour_of e.start_time) p.preferred_start_hour) early_start
        ++ when (ltb p.preferred_end_hour (c.hour_of e.end_time)) late_end
        ++ when (falls_on (c.weekday_of e.start_time) p.no_meeting_days) no_meeting_day
        ++ check_blocks (day_minute c e.start_time) (day_minute c e.end_time) p.focus_blocks)

unfoldable pub buffer : CalendarPreference → ℕ
buffer p = p.buffer_minutes * minute

-- The conflict of a pair of timed events within the buffer.
unfoldable pub pair_conflict : CalendarEvent → CalendarEvent → Conflict
unfolding conflict
pair_conflict a b =
    if ltb b.start_time a.end_time
    then conflict a (hard b.id ((a.end_time - b.start_time) / minute))
    else conflict a (soft b.id ((b.start_time - a.end_time) / minute))

-- The inner loop, over the events after `a`.
unfoldable pub scan : ℕ → CalendarEvent → List CalendarEvent → List Conflict
unfolding pair_conflict
scan buf a [] = []
scan buf a (b ∷ bs) =
    let rest = scan buf a bs in
    if ltb b.start_time (a.end_time + buf)
    then (if a.is_all_day || b.is_all_day then rest else pair_conflict a b ∷ rest)
    else []

unfoldable pub preference_conflicts : Clock → CalendarPreference → CalendarEvent → List Conflict
unfolding check_preferences conflict
preference_conflicts c p e = map (λ v. conflict e (preference v)) (check_preferences c p e)

unfoldable pub detect_sorted : Clock → CalendarPreference → List CalendarEvent → List Conflict
unfolding scan preference_conflicts buffer
detect_sorted c p [] = []
detect_sorted c p (e ∷ es) =
    scan (buffer p) e es ++ preference_conflicts c p e ++ detect_sorted c p es

unfoldable pub detect_conflicts : Clock → CalendarPreference → List CalendarEvent → List Conflict
unfolding detect_sorted filter_active sort
detect_conflicts c p events = detect_sorted c p (sort (filter_active events))
