-- ===== src/Base/Everywhere.antt =====
-- A predicate on every element of a list, which computes to a tuple.
use mathlib.Core.List.{List, [], ◌∷◌, ◌++◌}

module _ {ℓ κ} {A : Type ℓ} (Holds : A → Type κ) where
  abbrev pub All : List A → Type κ
  All [] = Unit
  All (a ∷ rest) = Holds a × All rest

  pub All-append : (front back : List A) → All front → All back → All (front ++ back)
  All-append [] back _ there = there
  All-append (a ∷ rest) back (here, more) there = (here, All-append rest back more there)

module _ {ℓ κ μ} {A : Type ℓ} {P : A → Type κ} {Q : A → Type μ} where
  pub All-map : ((a : A) → P a → Q a) → (rest : List A) → All P rest → All Q rest
  All-map f [] h = tt
  All-map f (a ∷ rest) (here, there) = (f a here, All-map f rest there)
