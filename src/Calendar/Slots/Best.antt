-- ===== src/Calendar/Slots/Best.antt =====
-- What `SuggestSlots` answers, from the request to the ranked list.
use regent_backend.Base.{
  ℕ, ◌+◌, ◌*◌, ◌≤◌, ◌≡◌, refl, ◌⊎◌, true, false, ◌||◌, Option, some, List, All, length,
}
use regent_backend.Calendar.{minute, Clock, CalendarEvent, CalendarPreference}
use regent_backend.Calendar.Conflicts.{buffer}
use regent_backend.Calendar.Slots.{
  SlotConfig, SlotRequest, TimeSlot, ScoredSlot, unfinished, is_candidate, is_no_meeting_day,
  end_hour, suggest_from, score_slot, slot_at, duration_of, search_start, search_end, with_events,
  suggest_slots,
}
use regent_backend.Calendar.Slots.Grid.{Grid, candidates-no_increment}
use regent_backend.Calendar.Slots.Ranking.{IsBeaten}

-- The event is cancelled, lasts the whole day, or keeps the buffer on its side of the slot.
abbrev pub IsClear : ℕ → TimeSlot → CalendarEvent → Type 0
IsClear buf s e =
    ((e.is_cancelled || e.is_all_day) ≡ true)
    ⊎ (e.end_time + buf ≤ s.start)
    ⊎ (s.end + buf ≤ e.start_time)

-- Not on a no-meeting day, within the preferred hours, and clear of every event.
pub record IsFree (c : Clock) (p : CalendarPreference) (events : List CalendarEvent) (s : TimeSlot)
    : Type 0 where
  pub meeting_day : is_no_meeting_day c p s.start ≡ false
  pub after_hours_start : p.preferred_start_hour ≤ c.hour_of s.start
  pub before_hours_end : end_hour c s ≤ p.preferred_end_hour
  pub clear : All (IsClear (buffer p) s) events

-- The answer to a request whose range and events are known.
module _ (c : Clock) (cfg : SlotConfig) (score : TimeSlot → ℕ) (req : SlotRequest)
    (p : CalendarPreference) (first last : ℕ) (events : List CalendarEvent) where
  abbrev pub increment : ℕ
  increment = cfg.slot_increment_minutes * minute

  -- A slot of the duration, in the range and free, with its score.
  abbrev pub IsAnswer : ScoredSlot → Type 0
  IsAnswer x =
      ((first ≤ x.slot.start)
        × (x.slot.end ≡ x.slot.start + duration_of req)
        × (x.slot.end ≤ last)
        × IsFree c p events x.slot)
      × (x.score ≡ score x.slot)

  abbrev pub nth : ℕ → TimeSlot
  nth k = slot_at (duration_of req) (first + k * increment)

  abbrev pub IsBest : List ScoredSlot → Type 0
  IsBest best =
      (length best ≤ cfg.max_slot_suggestions)
      × All IsAnswer best
      × ((k : ℕ)
          → first + k * increment + duration_of req ≤ last
          → is_candidate c p events (nth k) ≡ true
          → IsBeaten cfg.max_slot_suggestions (score_slot score (nth k)) best)

-- With an increment of 0 and room for one slot, `SuggestSlots` never answers.
pub suggest_slots-no_increment :
    (fuel : ℕ) (c : Clock) (cfg : SlotConfig) (score : TimeSlot → ℕ) (now : ℕ) (req : SlotRequest)
    (p : CalendarPreference) (load : ℕ → ℕ → Option (List CalendarEvent))
    (events : List CalendarEvent)
    → load (search_start p req now) (search_end req (search_start p req now)) ≡ some events
    → cfg.slot_increment_minutes ≡ 0
    → search_start p req now + duration_of req ≤ search_end req (search_start p req now)
    → suggest_slots fuel c cfg score now req (some p) load ≡ unfinished
unfolding suggest_slots with_events suggest_from
suggest_slots-no_increment fuel c cfg score now req p load events loaded z room =
    rw
      (
        loaded,
        z,
        candidates-no_increment fuel (is_candidate c p events) (duration_of req)
            (search_end req (search_start p req now)) (search_start p req now) room,
      )
      refl
