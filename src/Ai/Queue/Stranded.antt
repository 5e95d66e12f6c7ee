-- ===== src/Ai/Queue/Stranded.antt =====
-- What a dropped error does to the queue.
use regent_backend.Base.{ℕ, ◌≡◌, refl, ap, ◌∙◌, ◌≢◌, true, false, none, some, List, [], ◌∷◌, arith}
use regent_backend.Ai.Queue.Commands.{Redis, last?}
use regent_backend.Ai.Queue.{Job, Faults, dequeue}

abbrev pub len_fault : Faults
len_fault = record { range_ok = true; pop_ok = true; len_ok = false; rem_ok = true }

last?-some {ℓ} : {A : Type ℓ} (x : A) (xs : List A) → (y : A) × (last? (x ∷ xs) ≡ some y)
last?-some x [] = (x, refl)
last?-some x (y ∷ xs) = last?-some y xs

module _ (r : Redis Job) where
  open r use {
    State, Data, items, score, first_member, rpop, popped-rpop, items-rpop, items-zrem, score-zrem,
  }

  -- If only `LLen` fails, the user served is removed from the sorted set though jobs may be left in
  -- its list: they wait until that user enqueues again.
  pub dequeue-len_fault :
      (s : State) (u : ℕ) {d e : Data} {ds : List Data}
      → first_member s ≡ some u
      → items s u ≡ d ∷ e ∷ ds
      → (items (dequeue r len_fault s).0 u ≢ []) × (score (dequeue r len_fault s).0 u ≡ none)
  unfolding dequeue
  dequeue-len_fault s u {d} {e} {ds} first two =
      let (y, last) = last?-some e ds in
      rw first (
        rw (popped-rpop u s ∙ ap last? two ∙ last) (
          ground (arith, items-zrem u (rpop u s).1 u, items-rpop u s u),
          ground (arith, score-zrem u (rpop u s).1 u),
        ))
