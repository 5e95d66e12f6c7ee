-- ===== src/Email/Sync/Imap/Below.antt =====
-- A property of the UIDs that are found holds of those that are processed.
use regent_backend.Base.{
  if_each, ℕ, zero, suc, ◌%◌, ◌^◌, ◌≤◌, ◌<◌, ◌≡◌, subst, inl, inr, Bool, true, List, [], ◌∷◌, arith,
  ltb, leb, ◌==◌, Bool-cases, All, ==_iff, take, drop, count, filter,
}
use native.Mathlib.Nat.{mod-eq_of_lt}
use regent_backend.Email.Sync.Imap.Uids.{filter_above_uid, insert_uid, sort_uids, batches}

module _ (Holds : ℕ → Type 0) where
  filter-All :
      (p : ℕ → Bool) (uids : List ℕ)
      → ((uid : ℕ) → Holds uid → p uid ≡ true → Holds uid)
      → All Holds uids
      → All Holds (filter p uids)
  filter-All p [] h all = tt
  filter-All p (uid ∷ rest) h (here, there) =
      let more = filter-All p rest h there in if_each (All Holds) (p uid) _ _ (here, more) more

  insert_uid-All :
      (uid : ℕ) (uids : List ℕ) → Holds uid → All Holds uids → All Holds (insert_uid uid uids)
  unfolding insert_uid
  insert_uid-All uid [] h all = (h, tt)
  insert_uid-All uid (head ∷ rest) h (here, there) =
      if_each (All Holds) (leb uid head) _ _ (h, (here, there))
        (here, insert_uid-All uid rest h there)

  pub sort_uids-All : (uids : List ℕ) → All Holds uids → All Holds (sort_uids uids)
  unfolding sort_uids
  sort_uids-All [] all = tt
  sort_uids-All (uid ∷ rest) (here, there) =
      insert_uid-All uid (sort_uids rest) here (sort_uids-All rest there)

  take-All : (n : ℕ) (uids : List ℕ) → All Holds uids → All Holds (take n uids)
  take-All zero uids all = tt
  take-All (suc n) [] all = tt
  take-All (suc n) (uid ∷ rest) (here, there) = (here, take-All n rest there)

  drop-All : (n : ℕ) (uids : List ℕ) → All Holds uids → All Holds (drop n uids)
  drop-All zero uids all = all
  drop-All (suc n) [] all = tt
  drop-All (suc n) (uid ∷ rest) (here, there) = drop-All n rest there

  pub batches-All :
      (fuel : ℕ) (uids : List ℕ) → All Holds uids → All (All Holds) (batches fuel uids)
  unfolding batches
  batches-All zero uids all = tt
  batches-All (suc fuel) [] all = tt
  batches-All (suc fuel) (uid ∷ rest) (here, there) = (
    take-All 50 (uid ∷ rest) (here, there),
    batches-All fuel (drop 50 (uid ∷ rest)) (drop-All 50 (uid ∷ rest) (here, there)),
  )

  pub All-count :
      (uid : ℕ) (uids : List ℕ) → All Holds uids → 1 ≤ count (λ v. v == uid) uids → Holds uid
  All-count uid [] all h = absurd (omega (arith, h))
  All-count uid (v ∷ rest) (here, there) h = elim (Bool-cases (v == uid)) [
    | inl same ↦ subst Holds ((==_iff v uid).0 same) here
    | inr other ↦ All-count uid rest there (ground (arith, h, other))
  ]

-- The UIDs that are above the last one and fit in 32 bits.
abbrev pub Above : (last uid : ℕ) → Type 0
Above last uid = (last < uid) × (uid < 2 ^ 32)

pub filter_above_uid-Above :
    (last : ℕ) (uids : List ℕ)
    → last < 2 ^ 32
    → All (λ uid. uid < 2 ^ 32) uids
    → All (Above last) (filter_above_uid last uids)
unfolding filter_above_uid
filter_above_uid-Above last [] fits all = tt
filter_above_uid-Above last (uid ∷ rest) fits (here, there) =
    let more = filter_above_uid-Above last rest fits there in
    elim (Bool-cases (ltb (last % 2 ^ 32) uid)) [
      | inl above ↦ rw above ((ground (arith, above, mod-eq_of_lt fits), here), more)
      | inr below ↦ rw below more
    ]
