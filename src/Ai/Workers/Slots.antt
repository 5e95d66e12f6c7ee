-- ===== src/Ai/Workers/Slots.antt =====
-- No more jobs run at once than there are slots, and each job taken is processed once.
use regent_backend.Base.{
  Reach, here, next, first_step, Reach-trans, count, count-append, ℕ, ◌+◌, ◌≤◌, ◌≡◌, refl, ap, Bool,
  true, List, [], ◌∷◌, arith, length, length-append,
}
use regent_backend.Ai.Queue.Commands.{Redis}
use regent_backend.Ai.Queue.{Job}
use regent_backend.Ai.Workers.{
  Phase, at_top, has_slot, pausing, draining, returned, Pool, new_pool, Step, cancels, others_act,
  sees_cancel, acquires, dequeue_fails, dequeues_nothing, starts, resumes, stops_pausing, finishes,
  returns,
}

abbrev pub held : Phase → ℕ
held at_top = 0
held has_slot = 1
held pausing = 0
held draining = 0
held returned = 0

module _ (r : Redis Job) where
  open r use {State}

  pub record Inv (capacity : ℕ) (s : Pool State) : Type 0 where
    pub slots : s.free + length s.running + held s.phase ≡ capacity
    pub conserved : (p : Job → Bool) → count p s.taken ≡ count p s.running + count p s.finished
    pub ended : s.phase ≡ returned → s.running ≡ []

  Step-Inv : (capacity : ℕ) (s t : Pool State) → Step r s t → Inv capacity s → Inv capacity t
  Step-Inv capacity s t (cancels e) inv =
      rw e (record { slots = inv.slots; conserved = inv.conserved; ended = inv.ended })
  Step-Inv capacity s t (others_act q e) inv =
      rw e (record { slots = inv.slots; conserved = inv.conserved; ended = inv.ended })
  Step-Inv capacity s t (sees_cancel a c e) inv = rw e (record {
    slots = ground (arith, inv.slots, a);
    conserved = inv.conserved;
    ended = λ q. cc (q);
  })
  Step-Inv capacity s t (acquires a h e) inv = rw e (record {
    slots = ground (arith, inv.slots, a, h);
    conserved = inv.conserved;
    ended = λ q. cc (q);
  })
  Step-Inv capacity s t (dequeue_fails f q a d e) inv = rw e (record {
    slots = ground (arith, inv.slots, a);
    conserved = inv.conserved;
    ended = λ q. cc (q);
  })
  Step-Inv capacity s t (dequeues_nothing f q a d e) inv = rw e (record {
    slots = ground (arith, inv.slots, a);
    conserved = inv.conserved;
    ended = λ q. cc (q);
  })
  Step-Inv capacity s t (starts f q j a d e) inv = rw e (record {
    slots = ground (arith, inv.slots, a);
    conserved = λ p. omega (arith, inv.conserved p);
    ended = λ q. cc (q);
  })
  Step-Inv capacity s t (resumes a e) inv = rw e (record {
    slots = ground (arith, inv.slots, a);
    conserved = inv.conserved;
    ended = λ q. cc (q);
  })
  Step-Inv capacity s t (stops_pausing a c e) inv = rw e (record {
    slots = ground (arith, inv.slots, a);
    conserved = inv.conserved;
    ended = λ q. cc (q);
  })
  Step-Inv capacity s t (finishes front back j a e) inv = rw e (record {
    slots =
        omega
          (arith, inv.slots, ap length a, length-append front (j ∷ back), length-append front back);
    conserved = λ p. omega (
      arith,
      inv.conserved p,
      ap (count p) a,
      count-append p front (j ∷ back),
      count-append p front back,
    );
    ended = λ q.
        absurd
          (omega (arith, ap length (inv.ended q), ap length a, length-append front (j ∷ back)));
  })
  Step-Inv capacity s t (returns a b e) inv =
      rw e
        (record { slots = ground (arith, inv.slots, a); conserved = inv.conserved; ended = λ q. b })

  Reach-Inv :
      (q : State) (capacity : ℕ) {t : Pool State}
      → Reach (Step r) (new_pool q capacity) t
      → Inv capacity t
  unfolding new_pool
  Reach-Inv q capacity here = record {
    slots = omega arith;
    conserved = λ p. omega arith;
    ended = λ e. refl;
  }
  Reach-Inv q capacity (next steps step) = Step-Inv capacity _ _ step (Reach-Inv q capacity steps)

  -- However the pool, its jobs and the users of Redis take turns: at most as many jobs run at once as
  -- the pool's capacity, and each job taken from the queue is running or has been processed, as often
  -- as it was taken.
  pub Reach-new_pool :
      (q : State) (capacity : ℕ) (t : Pool State)
      → Reach (Step r) (new_pool q capacity) t
      → (length t.running ≤ capacity)
        × ((p : Job → Bool) → count p t.taken ≡ count p t.running + count p t.finished)
  Reach-new_pool q capacity t steps =
      let inv = Reach-Inv q capacity steps in (omega (arith, inv.slots), inv.conserved)

  drains :
      (js : List Job) (s : Pool State)
      → s.running ≡ js
      → s.phase ≡ draining
      → (t : Pool State) × Reach (Step r) s t × (t.phase ≡ returned) × (t.taken ≡ s.taken)
  drains [] s idle h = (record s { phase = returned }, next here (returns h idle refl), refl, refl)
  drains (j ∷ js) s busy h =
      let s' = record s { free = s.free + 1; running = js; finished = j ∷ s.finished } in
      let (t, steps, ended, same) = drains js s' refl h in
      (t, first_step (Step r) (finishes [] js j busy refl) steps, ended, same)

  -- In every state in which `Run` has returned, no job is running, and each job ever taken has been
  -- processed, as often as it was taken. And a cancelled pool that waits at the top can stop: there are
  -- steps to such a state, on which no job is taken.
  pub Reach-drains :
      (q : State) (capacity : ℕ) (s : Pool State)
      → Reach (Step r) (new_pool q capacity) s
      → (s.phase ≡ returned
          → (s.running ≡ []) × ((p : Job → Bool) → count p s.taken ≡ count p s.finished))
        × (s.phase ≡ at_top
            → s.cancelled ≡ true
            → (t : Pool State) × Reach (Step r) s t
              × (t.phase ≡ returned)
              × (t.taken ≡ s.taken)
              × ((p : Job → Bool) → count p s.taken ≡ count p t.finished))
  Reach-drains q capacity s before = (
    (λ e.
        let inv = Reach-Inv q capacity before in
        (inv.ended e, λ p. omega (arith, inv.conserved p, ap (count p) (inv.ended e)))),
    λ h c.
        let (t, steps, ended, same) = drains s.running (record s { phase = draining }) refl refl in
        let all_steps = first_step (Step r) (sees_cancel h c refl) steps in
        let inv = Reach-Inv q capacity (Reach-trans (Step r) before all_steps) in
        (
          t,
          all_steps,
          ended,
          same,
          λ p. omega (arith, inv.conserved p, ap (count p) (inv.ended ended), ap (count p) same),
        ),
  )
