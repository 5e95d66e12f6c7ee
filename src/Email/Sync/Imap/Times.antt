-- ===== src/Email/Sync/Imap/Times.antt =====
-- No UID is lost on the way from the search to the batches.
use regent_backend.Base.{
  if_each, ℕ, zero, suc, ◌+◌, ◌%◌, ◌^◌, length-drop, ◌≤◌, ◌<◌, ◌≡◌, refl, inl, inr, List, [], ◌∷◌,
  arith, ltb, leb, ◌==◌, Bool-cases, length, take, drop, count,
}
use native.Mathlib.Nat.{mod-eq_of_lt}
use regent_backend.Email.Sync.Imap.Uids.{filter_above_uid, insert_uid, sort_uids, batches}

-- How often a UID is in a list, and in a list of lists.
abbrev pub times : ℕ → List ℕ → ℕ
times uid uids = count (λ v. v == uid) uids

abbrev pub times_in : ℕ → List (List ℕ) → ℕ
times_in uid [] = 0
times_in uid (group ∷ rest) = times uid group + times_in uid rest

times-insert_uid :
    (uid v : ℕ) (uids : List ℕ) → times uid (insert_uid v uids) ≡ times uid (v ∷ uids)
unfolding insert_uid
times-insert_uid uid v [] = refl
times-insert_uid uid v (head ∷ rest) =
    let more = times-insert_uid uid v rest in
    if_each (λ l. times uid l ≡ times uid (v ∷ (head ∷ rest))) (leb v head) _ _ refl
      (omega (arith, more))

pub times-sort_uids : (uid : ℕ) (uids : List ℕ) → times uid (sort_uids uids) ≡ times uid uids
unfolding sort_uids
times-sort_uids uid [] = refl
times-sort_uids uid (v ∷ rest) =
    omega (arith, times-insert_uid uid v (sort_uids rest), times-sort_uids uid rest)

times-take-drop :
    (uid n : ℕ) (uids : List ℕ) → times uid (take n uids) + times uid (drop n uids) ≡ times uid uids
times-take-drop uid zero uids = omega arith
times-take-drop uid (suc n) [] = omega arith
times-take-drop uid (suc n) (v ∷ rest) = omega (arith, times-take-drop uid n rest)

pub times_in-batches :
    (uid fuel : ℕ) (uids : List ℕ)
    → length uids ≤ fuel
    → times_in uid (batches fuel uids) ≡ times uid uids
unfolding batches
times_in-batches uid zero [] le = refl
times_in-batches uid zero (v ∷ rest) le = absurd (omega (arith, le))
times_in-batches uid (suc fuel) [] le = refl
times_in-batches uid (suc fuel) (v ∷ rest) le =
    let shorter : length (drop 50 (v ∷ rest)) ≤ fuel =
      omega (arith, le, length-drop 50 (v ∷ rest)) in
    omega (
      arith,
      times-take-drop uid 50 (v ∷ rest),
      times_in-batches uid fuel (drop 50 (v ∷ rest)) shorter,
    )

pub times-filter_above_uid :
    (last uid : ℕ) (uids : List ℕ)
    → last < uid
    → last < 2 ^ 32
    → times uid (filter_above_uid last uids) ≡ times uid uids
unfolding filter_above_uid
times-filter_above_uid last uid [] lt fits = refl
times-filter_above_uid last uid (v ∷ rest) lt fits =
    let more = times-filter_above_uid last uid rest lt fits in
    let whole : last % 2 ^ 32 ≡ last = mod-eq_of_lt fits in
    elim (Bool-cases (ltb (last % 2 ^ 32) v)) [
      | inl above ↦ rw above (omega (arith, more))
      | inr below ↦ rw below (ground (arith, more, below, whole, lt))
    ]

pub times-length : (uid : ℕ) (uids : List ℕ) → times uid uids ≤ length uids
times-length uid [] = omega arith
times-length uid (v ∷ rest) = ground (arith, times-length uid rest)
