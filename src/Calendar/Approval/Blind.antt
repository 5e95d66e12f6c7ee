-- ===== src/Calendar/Approval/Blind.antt =====
-- What the check of `ApproveSlot` does not see.
use regent_backend.Base.{
  ℕ, ◌≡◌, refl, inl, inr, Bool, true, false, some, List, [], ◌∷◌, ◌++◌, map, if◌then◌else◌,
  Bool-cases, get_elem?,
}
use regent_backend.Calendar.{Clock, CalendarEvent, CalendarPreference}
use regent_backend.Calendar.Conflicts.{
  preference, Violation, conflict, filter_active, insert, sort, check_preferences, scan,
  preference_conflicts, detect_sorted, detect_conflicts,
}
use regent_backend.Calendar.Slots.{TimeSlot}
use regent_backend.Calendar.Approval.{
  accepted, is_in_range, events_in_range, is_hard, any_hard, check_slot, chosen, approve_chosen,
  approve_from, approve_slot,
}

no_hard_preference :
    (e : CalendarEvent) (vs : List Violation)
    → any_hard (map (λ v. conflict e (preference v)) vs ++ []) ≡ false
unfolding any_hard is_hard conflict
no_hard_preference e [] = refl
no_hard_preference e (v ∷ vs) = no_hard_preference e vs

no_hard_alone :
    (c : Clock) (p : CalendarPreference) (e : CalendarEvent) (cancelled : Bool)
    → any_hard (detect_sorted c p (sort (if cancelled then [] else e ∷ []))) ≡ false
unfolding detect_sorted sort insert scan preference_conflicts any_hard
no_hard_alone c p e true = refl
no_hard_alone c p e false = no_hard_preference e (check_preferences c p e)

detect_conflicts-alone :
    (c : Clock) (p : CalendarPreference) (e : CalendarEvent)
    → any_hard (detect_conflicts c p (e ∷ [])) ≡ false
unfolding detect_conflicts filter_active
detect_conflicts-alone c p e = no_hard_alone c p e e.is_cancelled

detect_conflicts-none :
    (c : Clock) (p : CalendarPreference) → any_hard (detect_conflicts c p []) ≡ false
unfolding detect_conflicts filter_active sort detect_sorted any_hard
detect_conflicts-none c p = refl

no_hard_in_range :
    (c : Clock) (p : CalendarPreference) (s : TimeSlot) (e : CalendarEvent)
    → any_hard (detect_conflicts c p (events_in_range s (e ∷ []))) ≡ false
unfolding events_in_range
no_hard_in_range c p s e = elim (Bool-cases (is_in_range s e)) [
  | inl y ↦ rw y (detect_conflicts-alone c p e)
  | inr n ↦ rw n (detect_conflicts-none c p)
]

-- While a user has one stored event, whatever it overlaps, and the queries are run and the preferences
-- are there, `ApproveSlot` accepts any slot that a suggested request offers.
pub approve_slot-one_event :
    (c : Clock) (p : CalendarPreference) (e : CalendarEvent) (slots : List TimeSlot) (i : ℕ)
    (s : TimeSlot)
    → get_elem? slots i ≡ some s
    → approve_slot c
        (e ∷ [])
        (record { query_ok = true; update_ok = true; preferences = some p })
        (some (record { is_suggested = true; suggested_slots = some slots }))
        (some i)
      ≡ accepted s
unfolding approve_slot approve_from chosen approve_chosen check_slot
approve_slot-one_event c p e slots i s found = rw (found, no_hard_in_range c p s e) refl
