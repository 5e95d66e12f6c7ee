-- ===== src/Calendar/Slots.antt =====
-- internal/calendar/slot_engine.go: `SuggestSlots`. The score of a slot is a parameter, a natural
-- number in place of a float: nothing here rests on how slot_scoring.go weighs it.
pub mod Grid
pub mod Ranking
pub mod Best
use regent_backend.Base.{
  ℕ, zero, suc, ◌+◌, ◌-◌, ◌*◌, ◌/◌, Bool, true, false, Option, none, some, List, [], ◌∷◌, map, ◌&&◌,
  ◌||◌, not, ltb, leb, ◌==◌, if◌then◌else◌, length, take,
}
use regent_backend.Calendar.{minute, Clock, CalendarEvent, CalendarPreference}
use regent_backend.Calendar.Conflicts.{falls_on, buffer}

pub record SlotConfig : Type 0 where
  pub slot_increment_minutes : ℕ
  pub max_slot_suggestions : ℕ

-- `none` stands for the zero time.
pub record SlotRequest : Type 0 where
  pub preferred_start : Option ℕ
  pub preferred_end : Option ℕ
  pub duration_minutes : ℕ

pub record TimeSlot : Type 0 where
  pub start : ℕ
  pub end : ℕ

pub record ScoredSlot : Type 0 where
  pub slot : TimeSlot
  pub score : ℕ

pub data Suggested : Type 0 where
  failed : Suggested
  suggested : List ScoredSlot → Suggested
  -- The loop still runs when the fuel is gone.
  unfinished : Suggested

abbrev pub hour : ℕ
hour = 60 * minute

abbrev pub day : ℕ
day = 24 * hour

unfoldable pub is_no_meeting_day : Clock → CalendarPreference → ℕ → Bool
unfolding falls_on
is_no_meeting_day c p t = falls_on (c.weekday_of t) p.no_meeting_days

-- Where `e.StartTime` less the buffer is compared, the buffer is added on the other side.
unfoldable pub has_conflict : CalendarPreference → List CalendarEvent → TimeSlot → Bool
unfolding buffer
has_conflict p [] s = false
has_conflict p (e ∷ es) s =
    let rest = has_conflict p es s in
    if e.is_cancelled || e.is_all_day
    then rest
    else (ltb s.start (e.end_time + buffer p) && ltb e.start_time (s.end + buffer p)) || rest

unfoldable pub end_hour : Clock → TimeSlot → ℕ
end_hour c s = if ltb 0 (c.minute_of s.end) then c.hour_of s.end + 1 else c.hour_of s.end

unfoldable pub in_hours : Clock → CalendarPreference → TimeSlot → Bool
unfolding end_hour
in_hours c p s =
    not (ltb (c.hour_of s.start) p.preferred_start_hour || ltb p.preferred_end_hour (end_hour c s))

-- The three tests that may skip a candidate.
unfoldable pub is_candidate : Clock → CalendarPreference → List CalendarEvent → TimeSlot → Bool
unfolding is_no_meeting_day in_hours has_conflict
is_candidate c p events s =
    not (is_no_meeting_day c p s.start) && in_hours c p s && not (has_conflict p events s)

unfoldable pub keep_if : Bool → TimeSlot → Option (List TimeSlot) → Option (List TimeSlot)
keep_if b s none = none
keep_if b s (some ss) = if b then some (s ∷ ss) else some ss

unfoldable pub slot_at : (duration t : ℕ) → TimeSlot
slot_at duration t = record { start = t; end = t + duration }

-- The loop over candidates, on fuel.
unfoldable pub candidates :
    (fuel : ℕ) (accept : TimeSlot → Bool) (duration increment last t : ℕ) → Option (List TimeSlot)
unfolding keep_if slot_at
candidates zero accept duration increment last t = none
candidates (suc fuel) accept duration increment last t =
    let rest = candidates fuel accept duration increment last (t + increment) in
    if leb (t + duration) last
    then keep_if (accept (slot_at duration t)) (slot_at duration t) rest
    else some []

unfoldable pub insert : ScoredSlot → List ScoredSlot → List ScoredSlot
insert s [] = s ∷ []
insert s (x ∷ xs) = let rest = insert s xs in if ltb s.score x.score then x ∷ rest else s ∷ x ∷ xs

-- Descending scores.
unfoldable pub rank : List ScoredSlot → List ScoredSlot
unfolding insert
rank [] = []
rank (s ∷ ss) = insert s (rank ss)

unfoldable pub score_slot : (TimeSlot → ℕ) → TimeSlot → ScoredSlot
score_slot score s = record { slot = s; score = score s }

unfoldable pub top : (TimeSlot → ℕ) → ℕ → List TimeSlot → List ScoredSlot
unfolding score_slot rank
top score n slots = take n (rank (map (score_slot score) slots))

unfoldable pub suggest_from : (TimeSlot → ℕ) → ℕ → Option (List TimeSlot) → Suggested
unfolding top
suggest_from score n none = unfinished
suggest_from score n (some slots) = suggested (top score n slots)

unfoldable pub duration_of : SlotRequest → ℕ
duration_of req = if req.duration_minutes == 0 then 60 * minute else req.duration_minutes * minute

unfoldable pub search_start : CalendarPreference → SlotRequest → (now : ℕ) → ℕ
search_start p req now = elim req.preferred_start [
  | none ↦ now / day * day + p.preferred_start_hour * hour
  | some t ↦ t
]

unfoldable pub search_end : SlotRequest → (start : ℕ) → ℕ
search_end req start = elim req.preferred_end [ none ↦ start + 7 * day | some t ↦ t ]

unfoldable pub with_events :
    (fuel : ℕ)
    → Clock
    → SlotConfig
    → (TimeSlot → ℕ)
    → SlotRequest
    → CalendarPreference
    → (start last : ℕ) → Option (List CalendarEvent)
    → Suggested
unfolding is_candidate candidates suggest_from duration_of
with_events fuel c cfg score req p start last none = failed
with_events fuel c cfg score req p start last (some events) =
    suggest_from score cfg.max_slot_suggestions (
      candidates fuel (is_candidate c p events) (duration_of req)
        (cfg.slot_increment_minutes * minute) last start)

-- `none` where loading the preferences, or the events of a range, fails.
unfoldable pub suggest_slots :
    (fuel : ℕ)
    → Clock
    → SlotConfig
    → (TimeSlot → ℕ)
    → (now : ℕ) → SlotRequest
    → Option CalendarPreference
    → (ℕ → ℕ → Option (List CalendarEvent))
    → Suggested
unfolding with_events search_start search_end
suggest_slots fuel c cfg score now req none events = failed
suggest_slots fuel c cfg score now req (some p) events =
    let start = search_start p req now in
    let last = search_end req start in
    with_events fuel c cfg score req p start last (events start last)
