-- ===== src/Calendar/Conflicts/Overlaps.antt =====
-- That two overlapping events are always reported, whatever their order in the input.
use regent_backend.Base.{
  ℕ, ◌+◌, ◌-◌, ◌/◌, ◌≤◌, ◌<◌, min, max, ◌≡◌, refl, sym, ap, subst, ◌⊎◌, inl, inr, false, ◌&&◌, ◌||◌,
  not, List, [], ◌∷◌, ◌++◌, arith, ltb, All, Bool-cases, lt→ltb,
}
use mathlib.Core.List.{Memᴰ}
use mathlib.Core.List.Memᴰ
use regent_backend.Calendar.{minute, Clock, CalendarEvent, CalendarPreference}
use regent_backend.Calendar.Conflicts.{
  Conflict, conflict, hard, filter_active, sort, buffer, pair_conflict, preference_conflicts,
  detect_conflicts,
}
use regent_backend.Calendar.Conflicts.Scan.{
  StartsBy, IsSorted, sort-IsSorted, compare_all, detect_all, detect_conflicts-detect_all,
}
use regent_backend.Calendar.Conflicts.Pairs.{
  Pair, first, second, further, sort-Pair, filter_active-Pair,
}

-- Active, with a time of day, and until_endping.
pub record Clash (a b : CalendarEvent) : Type 0 where
  pub a_active : a.is_cancelled ≡ false
  pub b_active : b.is_cancelled ≡ false
  pub a_timed : a.is_all_day ≡ false
  pub b_timed : b.is_all_day ≡ false
  pub a_first : a.start_time < b.end_time
  pub b_first : b.start_time < a.end_time

-- The conflict that names the first event of the two and the second.
abbrev pub until_end : CalendarEvent → CalendarEvent → Conflict
until_end a b = conflict a (hard b.id ((a.end_time - b.start_time) / minute))

pair_conflict-until_end :
    (a b : CalendarEvent) → b.start_time < a.end_time → pair_conflict a b ≡ until_end a b
unfolding pair_conflict
pair_conflict-until_end a b h = ground arith

compare_all-head :
    (buf : ℕ) (a b : CalendarEvent) (es : List CalendarEvent)
    → a.is_all_day ≡ false
    → b.is_all_day ≡ false
    → b.start_time < a.end_time
    → Memᴰ (until_end a b) (compare_all buf a (b ∷ es))
unfolding conflict pair_conflict
compare_all-head buf a b es h k l =
    rw
      (
        h,
        k,
        lt→ltb b.start_time (a.end_time + buf) (omega (arith, l)),
        pair_conflict-until_end a b l,
      )
      (Memᴰ.head refl)

compare_all-Mem :
    (buf : ℕ) (a b : CalendarEvent) (es : List CalendarEvent)
    → a.is_all_day ≡ false
    → b.is_all_day ≡ false
    → b.start_time < a.end_time
    → Memᴰ b es
    → Memᴰ (until_end a b) (compare_all buf a es)
compare_all-Mem buf a b [] h k l m = elim m [ ]
compare_all-Mem buf a b (e ∷ es) h k l (Memᴰ.head q) =
    subst (λ x. Memᴰ (until_end a b) (compare_all buf a (x ∷ es))) q
      (compare_all-head buf a b es h k l)
compare_all-Mem buf a b (e ∷ es) h k l (Memᴰ.tail m) =
    elim (Bool-cases (not (a.is_all_day || e.is_all_day) && ltb e.start_time (a.end_time + buf))) [
      | inl y ↦ rw y (Memᴰ.tail (compare_all-Mem buf a b es h k l m))
      | inr n ↦ rw n (compare_all-Mem buf a b es h k l m)
    ]

-- The time that two events share.
abbrev pub shared : CalendarEvent → CalendarEvent → ℕ
shared a b = min a.end_time b.end_time - max a.start_time b.start_time

-- The first event starts no later than the second, and they are reported as a hard conflict with at
-- least the minutes that they share, which are exact where the first one ends no later, too.
abbrev pub Reported : CalendarEvent → CalendarEvent → List Conflict → Type 0
Reported a b found =
    (a.start_time ≤ b.start_time)
    × ((minutes : ℕ) × Memᴰ (conflict a (hard b.id minutes)) found
        × (shared a b / minute ≤ minutes)
        × (a.end_time ≤ b.end_time → minutes ≡ shared a b / minute))

until_end-Reported :
    (a b : CalendarEvent) (found : List Conflict)
    → a.start_time ≤ b.start_time
    → Memᴰ (until_end a b) found
    → Reported a b found
until_end-Reported a b found h m = (
  h,
  (
    (a.end_time - b.start_time) / minute,
    m,
    omega (arith, h),
    λ l. ap (λ n. n / minute) (omega (arith, h, l)),
  ),
)

StartsBy-Mem :
    (t : ℕ) (b : CalendarEvent) (es : List CalendarEvent)
    → All (StartsBy t) es
    → Memᴰ b es
    → t ≤ b.start_time
StartsBy-Mem t b [] h m = elim m [ ]
StartsBy-Mem t b (e ∷ es) (h, hs) (Memᴰ.head q) =
    subst (λ x. t ≤ x) (ap (λ x. x.start_time) (sym q)) h
StartsBy-Mem t b (e ∷ es) (h, hs) (Memᴰ.tail m) = StartsBy-Mem t b es hs m

after_first :
    (c : Clock) (p : CalendarPreference) (a b e : CalendarEvent) (es : List CalendarEvent)
    → Reported a b (detect_all c p es)
    → Reported a b (detect_all c p (e ∷ es))
after_first c p a b e es (h, (n, m, more, same)) = (
  h,
  (n, Memᴰ.append_right (compare_all (buffer p) e es ++ preference_conflicts c p e) m, more, same),
)

-- The head of the sorted events, and a later one.
head-Reported :
    (c : Clock) (p : CalendarPreference) (a b e : CalendarEvent) (es : List CalendarEvent)
    → a.is_all_day ≡ false
    → b.is_all_day ≡ false
    → b.start_time < a.end_time
    → IsSorted (e ∷ es)
    → a ≡ e
    → Memᴰ b es
    → Reported a b (detect_all c p (e ∷ es))
head-Reported c p a b e es ha hb l (g, gs) q m =
    until_end-Reported a b _
      (StartsBy-Mem a.start_time b es (subst (λ x. All (StartsBy x.start_time) es) (sym q) g) m)
      (subst (λ x. Memᴰ (until_end a b) (detect_all c p (x ∷ es))) q
        (Memᴰ.append_left (detect_all c p es) (
          Memᴰ.append_left (preference_conflicts c p a)
            (compare_all-Mem (buffer p) a b es ha hb l m))))

detect_all-Pair :
    (c : Clock) (p : CalendarPreference) (a b : CalendarEvent) (es : List CalendarEvent)
    → Clash a b
    → IsSorted es
    → Pair a b es
    → Reported a b (detect_all c p es) ⊎ Reported b a (detect_all c p es)
detect_all-Pair c p a b [] h g m = elim m [ ]
detect_all-Pair c p a b (e ∷ es) h g (first q m) =
    inl (head-Reported c p a b e es h.a_timed h.b_timed h.b_first g q m)
detect_all-Pair c p a b (e ∷ es) h g (second q m) =
    inr (head-Reported c p b a e es h.b_timed h.a_timed h.a_first g q m)
detect_all-Pair c p a b (e ∷ es) h (g, gs) (further m) = elim (detect_all-Pair c p a b es h gs m) [
  | inl x ↦ inl (after_first c p a b e es x)
  | inr x ↦ inr (after_first c p b a e es x)
]

-- Two events of the input that are active, not all-day and overlap are reported as a hard conflict,
-- wherever they stand in the input, under the one that starts first, or either one if they start
-- together. The minutes reported are those that they share if that one ends no later than the other,
-- and may be more if the other ends within it.
pub detect_conflicts-Clash :
    (c : Clock) (p : CalendarPreference) (a b : CalendarEvent) (events : List CalendarEvent)
    → Clash a b
    → Pair a b events
    → Reported a b (detect_conflicts c p events) ⊎ Reported b a (detect_conflicts c p events)
detect_conflicts-Clash c p a b events h m = rw (detect_conflicts-detect_all c p events) (
    detect_all-Pair c p a b (sort (filter_active events)) h (sort-IsSorted (filter_active events)) (
      sort-Pair a b (filter_active events) (filter_active-Pair a b events h.a_active h.b_active m)))
