-- ===== src/Calendar/Slots/Grid.antt =====
-- The candidates of `SuggestSlots`: the accepted slots of the grid, and when the loop ends.
use regent_backend.Base.{
  ℕ, zero, suc, ◌+◌, ◌-◌, ◌*◌, ◌≤◌, ◌<◌, ◌≡◌, refl, sym, ◌∙◌, subst, inl, inr, Bool, true, none,
  some, List, [], ◌∷◌, arith, leb, Bool-cases, All, leb→le,
}
use mathlib.Core.Bool.{true≢false}
use mathlib.Core.List.{Memᴰ}
use regent_backend.Calendar.Slots.{TimeSlot, slot_at, keep_if, candidates}

module _ (accept : TimeSlot → Bool) (duration increment last : ℕ) where
  -- An accepted slot of the duration, in the range.
  abbrev pub IsOnGrid : ℕ → TimeSlot → Type 0
  IsOnGrid first s =
      (first ≤ s.start) × (s.end ≡ s.start + duration) × (s.end ≤ last) × (accept s ≡ true)

  -- Each accepted slot of the grid that ends in the range is there.
  abbrev pub IsComplete : ℕ → List TimeSlot → Type 0
  IsComplete t slots =
      (k : ℕ)
      → t + k * increment + duration ≤ last
      → accept (slot_at duration (t + k * increment)) ≡ true
      → Memᴰ (slot_at duration (t + k * increment)) slots

  unfoldable pub Grid : ℕ → List TimeSlot → Type 0
  Grid t slots = All (IsOnGrid t) slots × IsComplete t slots

  weaken :
      (t u : ℕ) (slots : List TimeSlot) → t ≤ u → All (IsOnGrid u) slots → All (IsOnGrid t) slots
  weaken t u [] h a = tt
  weaken t u (s ∷ ss) h ((l, e, r, q), a) = ((omega (arith, h, l), e, r, q), weaken t u ss h a)

  step_complete : (t k : ℕ) → t + suc k * increment ≡ (t + increment) + k * increment
  step_complete t k = omega arith

  on_grid :
      (t : ℕ)
      → t + duration ≤ last
      → accept (slot_at duration t) ≡ true
      → IsOnGrid t (slot_at duration t)
  unfolding slot_at
  on_grid t h y = (omega arith, refl, h, y)

  extend :
      (t : ℕ) (slots out : List TimeSlot)
      → (accept (slot_at duration t) ≡ true → Memᴰ (slot_at duration t) out)
      → ((x : TimeSlot) → Memᴰ x slots → Memᴰ x out)
      → IsComplete (t + increment) slots
      → IsComplete t out
  extend t slots out here more complete zero l a =
      subst (λ x. accept (slot_at duration x) ≡ true → Memᴰ (slot_at duration x) out) (omega arith)
        here a
  extend t slots out here more complete (suc k) l a =
      subst
        (λ x.
          x + duration ≤ last → accept (slot_at duration x) ≡ true → Memᴰ (slot_at duration x) out)
        (sym (step_complete t k))
        (λ l a. more (slot_at duration (t + increment + k * increment)) (complete k l a)) l a

  keep :
      (t : ℕ) (slots : List TimeSlot)
      → t + duration ≤ last
      → Grid (t + increment) slots
      → (out : List TimeSlot) × (keep_if
            (accept (slot_at duration t))
            (slot_at duration t)
            (some slots)
          ≡ some out)
        × Grid t out
  unfolding keep_if Grid
  keep t slots h (sound, complete) = elim (Bool-cases (accept (slot_at duration t))) [
    | inl y ↦ (
      slot_at duration t ∷ slots,
      rw y refl,
      (
        (on_grid t h y, weaken t (t + increment) slots (omega arith) sound),
        extend t slots (slot_at duration t ∷ slots) (λ a. Memᴰ.head refl) (λ x m. Memᴰ.tail m)
            complete,
      ),
    )
    | inr n ↦ (
      slots,
      rw n refl,
      (
        weaken t (t + increment) slots (omega arith) sound,
        extend t slots slots (λ a. absurd (true≢false (sym a ∙ n))) (λ x m. m) complete,
      ),
    )
  ]

  -- With more fuel than nanoseconds to go, the loop ends.
  pub candidates-Grid :
      (fuel t : ℕ)
      → 0 < increment
      → 0 < duration
      → last - t < fuel
      → (slots : List TimeSlot) × (candidates fuel accept duration increment last t ≡ some slots)
        × Grid t slots
  unfolding candidates Grid
  candidates-Grid zero t i d h = elim h [ ]
  candidates-Grid (suc fuel) t i d h = elim (Bool-cases (leb (t + duration) last)) [
    | inl y ↦
        let (slots, q, g) =
          candidates-Grid fuel (t + increment) i d (omega (arith, leb→le (t + duration) last y)) in
        rw (y, q) (keep t slots (leb→le (t + duration) last y) g)
    | inr n ↦ ([], rw n refl, (tt, λ k l a. (ground arith)))
  ]

-- With no increment the loop does not end.
pub candidates-no_increment :
    (fuel : ℕ) (accept : TimeSlot → Bool) (duration last t : ℕ)
    → t + duration ≤ last
    → candidates fuel accept duration 0 last t ≡ none
unfolding candidates keep_if
candidates-no_increment zero accept duration last t h = refl
candidates-no_increment (suc fuel) accept duration last t h =
    let rest = candidates-no_increment fuel accept duration last (t + 0) (omega (arith, h)) in
    ground (arith, rest, h)
