-- ===== src/Calendar/Slots/Ranking.antt =====
-- The ranking of scored slots and its cut to the first ones.
use regent_backend.Base.{
  ℕ, zero, suc, ◌≤◌, ◌≡◌, refl, sym, ap, subst, ◌⊎◌, inl, inr, List, [], ◌∷◌, map, arith, ltb,
  Bool-cases, All, length, take, length-take,
}
use mathlib.Core.List.{Memᴰ}
use mathlib.Core.List.Memᴰ
use regent_backend.Calendar.Slots.{TimeSlot, ScoredSlot, insert, rank, score_slot, top}

abbrev pub ScoresAtMost : ℕ → ScoredSlot → Type 0
ScoresAtMost n s = s.score ≤ n

abbrev pub ScoresAtLeast : ℕ → ScoredSlot → Type 0
ScoresAtLeast n s = n ≤ s.score

abbrev pub IsRanked : List ScoredSlot → Type 0
IsRanked [] = Unit
IsRanked (s ∷ ss) = All (ScoresAtMost s.score) ss × IsRanked ss

insert-All :
    (Holds : ScoredSlot → Type 0) (s : ScoredSlot) (xs : List ScoredSlot)
    → Holds s
    → All Holds xs
    → All Holds (insert s xs)
unfolding insert
insert-All Holds s [] h hs = (h, tt)
insert-All Holds s (x ∷ xs) h (g, gs) = elim (Bool-cases (ltb s.score x.score)) [
  | inl y ↦ rw y (g, insert-All Holds s xs h gs)
  | inr n ↦ rw n (h, (g, gs))
]

rank-All : (Holds : ScoredSlot → Type 0) (xs : List ScoredSlot) → All Holds xs → All Holds (rank xs)
unfolding rank
rank-All Holds [] h = tt
rank-All Holds (x ∷ xs) (g, gs) = insert-All Holds x (rank xs) g (rank-All Holds xs gs)

raise : (m n : ℕ) (xs : List ScoredSlot) → m ≤ n → All (ScoresAtMost m) xs → All (ScoresAtMost n) xs
raise m n [] h a = tt
raise m n (x ∷ xs) h (g, gs) = (omega (arith, h, g), raise m n xs h gs)

insert-IsRanked : (s : ScoredSlot) (xs : List ScoredSlot) → IsRanked xs → IsRanked (insert s xs)
unfolding insert
insert-IsRanked s [] h = (tt, tt)
insert-IsRanked s (x ∷ xs) (g, gs) = elim (Bool-cases (ltb s.score x.score)) [
  | inl y ↦ rw y (insert-All _ s xs (ground arith) g, insert-IsRanked s xs gs)
  | inr n ↦ rw n ((ground arith, raise x.score s.score xs (ground arith) g), (g, gs))
]

rank-IsRanked : (xs : List ScoredSlot) → IsRanked (rank xs)
unfolding rank
rank-IsRanked [] = tt
rank-IsRanked (x ∷ xs) = insert-IsRanked x (rank xs) (rank-IsRanked xs)

insert-self : (s : ScoredSlot) (xs : List ScoredSlot) → Memᴰ s (insert s xs)
unfolding insert
insert-self s [] = Memᴰ.head refl
insert-self s (x ∷ xs) = elim (Bool-cases (ltb s.score x.score)) [
  | inl y ↦ rw y (Memᴰ.tail (insert-self s xs))
  | inr n ↦ rw n (Memᴰ.head refl)
]

insert-Mem : (a s : ScoredSlot) (xs : List ScoredSlot) → Memᴰ a xs → Memᴰ a (insert s xs)
unfolding insert
insert-Mem a s [] m = elim m [ ]
insert-Mem a s (x ∷ xs) (Memᴰ.head q) = elim (Bool-cases (ltb s.score x.score)) [
  | inl y ↦ rw y (Memᴰ.head q)
  | inr n ↦ rw n (Memᴰ.tail (Memᴰ.head q))
]
insert-Mem a s (x ∷ xs) (Memᴰ.tail m) = elim (Bool-cases (ltb s.score x.score)) [
  | inl y ↦ rw y (Memᴰ.tail (insert-Mem a s xs m))
  | inr n ↦ rw n (Memᴰ.tail (Memᴰ.tail m))
]

rank-Mem : (a : ScoredSlot) (xs : List ScoredSlot) → Memᴰ a xs → Memᴰ a (rank xs)
unfolding rank
rank-Mem a [] m = elim m [ ]
rank-Mem a (x ∷ xs) (Memᴰ.head q) = Memᴰ.cast q (insert-self x (rank xs))
rank-Mem a (x ∷ xs) (Memᴰ.tail m) = insert-Mem a x (rank xs) (rank-Mem a xs m)

All-Mem :
    (Holds : ScoredSlot → Type 0) (a : ScoredSlot) (xs : List ScoredSlot)
    → Memᴰ a xs
    → All Holds xs
    → Holds a
All-Mem Holds a [] m h = elim m [ ]
All-Mem Holds a (x ∷ xs) (Memᴰ.head q) (h, hs) = subst Holds (sym q) h
All-Mem Holds a (x ∷ xs) (Memᴰ.tail m) (h, hs) = All-Mem Holds a xs m hs

take-All :
    (Holds : ScoredSlot → Type 0) (n : ℕ) (xs : List ScoredSlot)
    → All Holds xs
    → All Holds (take n xs)
take-All Holds zero xs h = tt
take-All Holds (suc n) [] h = tt
take-All Holds (suc n) (x ∷ xs) (h, hs) = (h, take-All Holds n xs hs)

-- Among the first n, or no better than any of n that are there.
abbrev pub IsBeaten : ℕ → ScoredSlot → List ScoredSlot → Type 0
IsBeaten n a best = Memᴰ a best ⊎ ((length best ≡ n) × All (ScoresAtLeast a.score) best)

take-IsBeaten :
    (n : ℕ) (a : ScoredSlot) (xs : List ScoredSlot)
    → IsRanked xs
    → Memᴰ a xs
    → IsBeaten n a (take n xs)
take-IsBeaten n a [] h m = elim m [ ]
take-IsBeaten zero a (x ∷ xs) h m = inr (refl, tt)
take-IsBeaten (suc n) a (x ∷ xs) h (Memᴰ.head q) = inl (Memᴰ.head q)
take-IsBeaten (suc n) a (x ∷ xs) (g, gs) (Memᴰ.tail m) = elim (take-IsBeaten n a xs gs m) [
  | inl here ↦ inl (Memᴰ.tail here)
  | inr (full, below) ↦ inr (ap suc full, (All-Mem _ a xs m g, below))
]

module _ (score : TimeSlot → ℕ) where
  score_slot-All :
      (Holds : TimeSlot → Type 0) (slots : List TimeSlot)
      → All Holds slots
      → All (λ x. Holds x.slot × (x.score ≡ score x.slot)) (map (score_slot score) slots)
  unfolding score_slot
  score_slot-All Holds [] h = tt
  score_slot-All Holds (s ∷ ss) (h, hs) = ((h, refl), score_slot-All Holds ss hs)

  score_slot-Mem :
      (a : TimeSlot) (slots : List TimeSlot)
      → Memᴰ a slots
      → Memᴰ (score_slot score a) (map (score_slot score) slots)
  score_slot-Mem a [] m = elim m [ ]
  score_slot-Mem a (s ∷ ss) (Memᴰ.head q) = Memᴰ.head (ap (score_slot score) q)
  score_slot-Mem a (s ∷ ss) (Memᴰ.tail m) = Memᴰ.tail (score_slot-Mem a ss m)

  pub top-All :
      (Holds : TimeSlot → Type 0) (n : ℕ) (slots : List TimeSlot)
      → All Holds slots
      → All (λ x. Holds x.slot × (x.score ≡ score x.slot)) (top score n slots)
  unfolding top
  top-All Holds n slots h =
      take-All _ n (rank (map (score_slot score) slots))
        (rank-All _ (map (score_slot score) slots) (score_slot-All Holds slots h))

  pub top-IsBeaten :
      (n : ℕ) (a : TimeSlot) (slots : List TimeSlot)
      → Memᴰ a slots
      → IsBeaten n (score_slot score a) (top score n slots)
  unfolding top
  top-IsBeaten n a slots m =
      take-IsBeaten n (score_slot score a) (rank (map (score_slot score) slots))
        (rank-IsRanked (map (score_slot score) slots))
        (rank-Mem (score_slot score a) (map (score_slot score) slots) (score_slot-Mem a slots m))

  pub top-length : (n : ℕ) (slots : List TimeSlot) → length (top score n slots) ≤ n
  unfolding top
  top-length n slots = omega (arith, length-take n (rank (map (score_slot score) slots)))
