-- ===== src/Base/Counts.antt =====
-- How many elements of a list pass a test: a list up to order.
use Prim.Native.Nat.{ℕ, ◌+◌, ◌≤◌}
use mathlib.Core.Path.{◌≡◌, refl}
use mathlib.Core.Bool.{Bool, true, ◌&&◌, not}
use mathlib.Core.List.{List, [], ◌∷◌, ◌++◌}
use native.Mathlib.Omega.{arith}
use mathlib.Core.Logic.{inl, inr}
use regent_backend.Base.Tests.{if◌then◌else◌, Bool-cases}

module _ {ℓ} {A : Type ℓ} where
  abbrev pub count : (A → Bool) → List A → ℕ
  count p [] = 0
  count p (a ∷ rest) = (if p a then 1 else 0) + count p rest

  -- The elements that pass.
  abbrev pub filter : (A → Bool) → List A → List A
  filter p [] = []
  filter p (a ∷ rest) = let more = filter p rest in if p a then a ∷ more else more

  pub count-append :
      (p : A → Bool) (front back : List A) → count p (front ++ back) ≡ count p front + count p back
  count-append p [] back = omega arith
  count-append p (a ∷ rest) back = omega (arith, count-append p rest back)

  pub count-split :
      (p q : A → Bool) (rest : List A)
      → count p rest ≡ count (λ a. p a && q a) rest + count (λ a. p a && not (q a)) rest
  count-split p q [] = omega arith
  count-split p q (a ∷ rest) = ground (arith, count-split p q rest)

  pub count-filter :
      (p q : A → Bool) (rest : List A) → count p (filter q rest) ≡ count (λ a. p a && q a) rest
  count-filter p q [] = refl
  count-filter p q (a ∷ rest) = ground (arith, count-filter p q rest)

  pub count_mono :
      (p q : A → Bool)
      → ((a : A) → p a ≡ true → q a ≡ true)
      → (rest : List A) → count p rest ≤ count q rest
  count_mono p q le [] = omega arith
  count_mono p q le (a ∷ rest) = ground (arith, le a, count_mono p q le rest)

  -- Where just one element passes a test, to filter it out takes away one such element.
  pub count-filter_one :
      (p q : A → Bool) (rest : List A) (a : A)
      → count q rest ≤ 1
      → q a ≡ true
      → ((r : A → Bool) → r a ≡ true → 1 ≤ count r rest)
      → count p (filter (λ b. not (q b)) rest) + (if p a then 1 else 0) ≡ count p rest
  count-filter_one p q rest a single self found =
      let kept = count-filter p (λ b. not (q b)) rest in
      let split = count-split p q rest in
      let under_q = count_mono (λ b. p b && q b) q (λ b h. ground (arith, h)) rest in
      let turned = count_mono (λ b. p b && q b) (λ b. q b && p b) (λ b h. ground (arith, h)) rest in
      let other = count-split q p rest in
      elim (Bool-cases (p a)) [
        | inl h ↦
            (let both = found (λ b. p b && q b) (rw (h, self) refl) in
              rw h (omega (arith, kept, split, under_q, both, single)))
        | inr h ↦
            (let one = found (λ b. q b && not (p b)) (rw (h, self) refl) in
              rw h (omega (arith, kept, split, turned, other, one, single)))
      ]
