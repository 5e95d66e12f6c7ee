-- ===== src/Calendar/Approval.antt =====
-- internal/calendar/slot_approve.go: `ApproveSlot`, with `getEventsInRange` of conflict_realtime.go
-- over the stored events of the user.
pub mod Blind
use regent_backend.Base.{
  ℕ, Bool, true, false, Option, none, some, List, [], ◌∷◌, ◌&&◌, ◌||◌, not, ltb, if◌then◌else◌,
  get_elem?,
}
use regent_backend.Calendar.{Clock, CalendarEvent, CalendarPreference}
use regent_backend.Calendar.Conflicts.{Found, hard, soft, preference, Conflict, detect_conflicts}
use regent_backend.Calendar.Slots.{TimeSlot}

-- `none` where the JSON of the slots does not parse.
pub record SchedulingRequest : Type 0 where
  pub is_suggested : Bool
  pub suggested_slots : Option (List TimeSlot)

pub data Approval : Type 0 where
  not_found wrong_status bad_slots out_of_range load_failed hard_conflict update_failed : Approval
  -- `DetectConflicts` reads through the nil preferences.
  panicked : Approval
  accepted : TimeSlot → Approval

unfoldable pub is_in_range : TimeSlot → CalendarEvent → Bool
is_in_range s e = ltb e.start_time s.end && ltb s.start e.end_time && not e.is_cancelled

-- The WHERE clause; the ORDER BY is left out, since `DetectConflicts` sorts.
unfoldable pub events_in_range : TimeSlot → List CalendarEvent → List CalendarEvent
unfolding is_in_range
events_in_range s [] = []
events_in_range s (e ∷ es) =
    let rest = events_in_range s es in if is_in_range s e then e ∷ rest else rest

unfoldable pub is_hard : Found → Bool
is_hard (hard b n) = true
is_hard (soft b n) = false
is_hard (preference v) = false

unfoldable pub any_hard : List Conflict → Bool
unfolding is_hard
any_hard [] = false
any_hard (c ∷ cs) = is_hard c.found || any_hard cs

-- Whether the query of the events and the UPDATE are run; the preferences, `none` for nil.
pub record Answers : Type 0 where
  pub query_ok : Bool
  pub update_ok : Bool
  pub preferences : Option CalendarPreference

module _ (c : Clock) (store : List CalendarEvent) (a : Answers) where
  unfoldable pub check_slot : TimeSlot → Option CalendarPreference → Approval
  unfolding any_hard detect_conflicts events_in_range
  check_slot s none = panicked
  check_slot s (some p) =
      if any_hard (detect_conflicts c p (events_in_range s store))
      then hard_conflict
      else (if a.update_ok then accepted s else update_failed)

  -- A negative index is `none`.
  unfoldable pub chosen : List TimeSlot → Option ℕ → Option TimeSlot
  chosen slots none = none
  chosen slots (some i) = get_elem? slots i

  unfoldable pub approve_chosen : Option TimeSlot → Approval
  unfolding check_slot
  approve_chosen none = out_of_range
  approve_chosen (some s) = if a.query_ok then check_slot s a.preferences else load_failed

  unfoldable pub approve_from : Option (List TimeSlot) → Option ℕ → Approval
  unfolding approve_chosen chosen
  approve_from none i = bad_slots
  approve_from (some slots) i = approve_chosen (chosen slots i)

  unfoldable pub approve_slot : Option SchedulingRequest → Option ℕ → Approval
  unfolding approve_from
  approve_slot none i = not_found
  approve_slot (some req) i =
      if req.is_suggested then approve_from req.suggested_slots i else wrong_status
