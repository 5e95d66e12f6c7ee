-- ===== src/Ai/Queue/Commands.antt =====
-- The Redis commands that the queue sends, with their documented effect on the lists and the sorted
-- set, and the JSON coding of what the lists hold (encoding/json).
use regent_backend.Base.{
  ℕ, ◌≤◌, ◌≡◌, Option, none, some, List, [], ◌∷◌, length, if◌then◌else◌, ◌==◌,
}

module _ {ℓ} {A : Type ℓ} where
  -- The right end of a list, which `RPOP` takes, and what it leaves.
  abbrev pub last? : List A → Option A
  last? [] = none
  last? (x ∷ []) = some x
  last? (x ∷ y ∷ xs) = last? (y ∷ xs)

  abbrev pub init : List A → List A
  init [] = []
  init (x ∷ []) = []
  init (x ∷ y ∷ xs) = x ∷ init (y ∷ xs)

pub record Redis (A : Type 0) : Type 1 where
  pub State : Type 0
  pub Data : Type 0
  pub encode : A → Data
  pub decode : Data → Option A
  -- Left end first.
  pub items : State → ℕ → List Data
  pub score : State → ℕ → Option ℕ
  pub lpush : ℕ → Data → State → State
  pub zadd : ℕ → ℕ → State → State
  pub zrem : ℕ → State → State
  pub rpop : ℕ → State → Option Data × State
  pub llen : ℕ → State → ℕ
  -- ZREVRANGE 0 0: the member of highest score.
  pub first_member : State → Option ℕ
  pub decode-encode : (a : A) → decode (encode a) ≡ some a
  pub items-lpush :
      (k : ℕ) (d : Data) (s : State) (j : ℕ)
      → items (lpush k d s) j ≡ (if k == j then d ∷ items s j else items s j)
  pub score-lpush : (k : ℕ) (d : Data) (s : State) (j : ℕ) → score (lpush k d s) j ≡ score s j
  pub items-zadd : (k n : ℕ) (s : State) (j : ℕ) → items (zadd k n s) j ≡ items s j
  pub score-zadd :
      (k n : ℕ) (s : State) (j : ℕ) → score (zadd k n s) j ≡ (if k == j then some n else score s j)
  pub items-zrem : (k : ℕ) (s : State) (j : ℕ) → items (zrem k s) j ≡ items s j
  pub score-zrem :
      (k : ℕ) (s : State) (j : ℕ) → score (zrem k s) j ≡ (if k == j then none else score s j)
  pub popped-rpop : (k : ℕ) (s : State) → (rpop k s).0 ≡ last? (items s k)
  pub items-rpop :
      (k : ℕ) (s : State) (j : ℕ)
      → items (rpop k s).1 j ≡ (if k == j then init (items s j) else items s j)
  pub score-rpop : (k : ℕ) (s : State) (j : ℕ) → score (rpop k s).1 j ≡ score s j
  pub llen-length : (k : ℕ) (s : State) → llen k s ≡ length (items s k)
  pub first_member-none : (s : State) → first_member s ≡ none → (j : ℕ) → score s j ≡ none
  pub first_member-some :
      (s : State) (u : ℕ)
      → first_member s ≡ some u
      → (p : ℕ) × (score s u ≡ some p) × ((j q : ℕ) → score s j ≡ some q → q ≤ p)
