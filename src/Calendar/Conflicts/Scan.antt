-- ===== src/Calendar/Conflicts/Scan.antt =====
-- The sort and the early exit of `DetectConflicts` against a comparison of all pairs.
use regent_backend.Base.{
  ℕ, ◌+◌, ◌≤◌, ◌≡◌, refl, sym, ◌∙◌, inl, inr, false, ◌&&◌, ◌||◌, not, List, [], ◌∷◌, ◌++◌, arith,
  ltb, if◌then◌else◌, Bool-cases, All,
}
use regent_backend.Calendar.{Clock, CalendarEvent, CalendarPreference}
use regent_backend.Calendar.Conflicts.{
  Conflict, filter_active, insert, sort, buffer, pair_conflict, scan, preference_conflicts,
  detect_sorted, detect_conflicts,
}

abbrev pub StartsBy : ℕ → CalendarEvent → Type 0
StartsBy t e = t ≤ e.start_time

abbrev pub IsSorted : List CalendarEvent → Type 0
IsSorted [] = Unit
IsSorted (e ∷ es) = All (StartsBy e.start_time) es × IsSorted es

insert-All :
    (e : CalendarEvent) (t : ℕ) (es : List CalendarEvent)
    → t ≤ e.start_time
    → All (StartsBy t) es
    → All (StartsBy t) (insert e es)
unfolding insert
insert-All e t [] h hs = (h, tt)
insert-All e t (f ∷ fs) h (g, gs) = elim (Bool-cases (ltb f.start_time e.start_time)) [
  | inl y ↦ rw y (g, insert-All e t fs h gs)
  | inr n ↦ rw n (h, (g, gs))
]

later : (t u : ℕ) (es : List CalendarEvent) → t ≤ u → All (StartsBy u) es → All (StartsBy t) es
later t u [] h hs = tt
later t u (e ∷ es) h (g, gs) = (omega (arith, h, g), later t u es h gs)

insert-IsSorted :
    (e : CalendarEvent) (es : List CalendarEvent) → IsSorted es → IsSorted (insert e es)
unfolding insert
insert-IsSorted e [] h = (tt, tt)
insert-IsSorted e (f ∷ fs) (g, gs) = elim (Bool-cases (ltb f.start_time e.start_time)) [
  | inl y ↦ rw y (insert-All e f.start_time fs (ground arith) g, insert-IsSorted e fs gs)
  | inr n ↦ rw n ((ground arith, later e.start_time f.start_time fs (ground arith) g), (g, gs))
]

pub sort-IsSorted : (es : List CalendarEvent) → IsSorted (sort es)
unfolding sort
sort-IsSorted [] = tt
sort-IsSorted (e ∷ es) = insert-IsSorted e (sort es) (sort-IsSorted es)

-- Every later event is compared, with no early exit.
abbrev pub compare_all : ℕ → CalendarEvent → List CalendarEvent → List Conflict
compare_all buf a [] = []
compare_all buf a (b ∷ bs) =
    let rest = compare_all buf a bs in
    if not (a.is_all_day || b.is_all_day) && ltb b.start_time (a.end_time + buf)
    then pair_conflict a b ∷ rest
    else rest

abbrev pub detect_all : Clock → CalendarPreference → List CalendarEvent → List Conflict
detect_all c p [] = []
detect_all c p (e ∷ es) =
    compare_all (buffer p) e es ++ preference_conflicts c p e ++ detect_all c p es

none_starts :
    (buf : ℕ) (a : CalendarEvent) (bs : List CalendarEvent)
    → All (StartsBy (a.end_time + buf)) bs
    → compare_all buf a bs ≡ []
none_starts buf a [] h = refl
none_starts buf a (b ∷ bs) (g, gs) = let rest = none_starts buf a bs gs in ground (arith, g, rest)

scan_stops :
    (buf : ℕ) (a b : CalendarEvent) (bs : List CalendarEvent)
    → ltb b.start_time (a.end_time + buf) ≡ false
    → scan buf a (b ∷ bs) ≡ []
unfolding scan
scan_stops buf a b bs n = rw n

scan-compare_all :
    (buf : ℕ) (a : CalendarEvent) (bs : List CalendarEvent)
    → IsSorted bs
    → scan buf a bs ≡ compare_all buf a bs
unfolding scan
scan-compare_all buf a [] h = refl
scan-compare_all buf a (b ∷ bs) (g, gs) =
    let rest = scan-compare_all buf a bs gs in
    elim (Bool-cases (ltb b.start_time (a.end_time + buf))) [
      | inl y ↦ elim (Bool-cases (a.is_all_day || b.is_all_day)) [
        | inl q ↦ rw (y, q, rest)
        | inr q ↦ rw (y, q, rest)
      ]
      | inr n ↦
          scan_stops buf a b bs n
          ∙ sym (
              none_starts buf a (b ∷ bs)
                (ground arith, later (a.end_time + buf) b.start_time bs (ground arith) g))
    ]

detect_sorted-detect_all :
    (c : Clock) (p : CalendarPreference) (es : List CalendarEvent)
    → IsSorted es
    → detect_sorted c p es ≡ detect_all c p es
unfolding detect_sorted
detect_sorted-detect_all c p [] h = refl
detect_sorted-detect_all c p (e ∷ es) (g, gs) =
    rw (scan-compare_all (buffer p) e es gs, detect_sorted-detect_all c p es gs)

-- `DetectConflicts` finds what comparing every pair of the active events in start order finds.
pub detect_conflicts-detect_all :
    (c : Clock) (p : CalendarPreference) (events : List CalendarEvent)
    → detect_conflicts c p events ≡ detect_all c p (sort (filter_active events))
unfolding detect_conflicts
detect_conflicts-detect_all c p events =
    detect_sorted-detect_all c p (sort (filter_active events))
      (sort-IsSorted (filter_active events))
