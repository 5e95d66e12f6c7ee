-- ===== src/Ai/Queue/Fair.antt =====
-- What the queue promises while Redis answers: first in, first out for each user, and the users by
-- the priority of their newest job.
use regent_backend.Base.{
  ℕ, ◌≤◌, ◌≡◌, refl, sym, ap, ◌∙◌, ◌≢◌, ◌⊎◌, inl, inr, true, false, ◌==◌, Option, none, some, List,
  [], ◌∷◌, map, if◌then◌else◌, arith, Bool-cases, subst, ==_iff,
}
use regent_backend.Ai.Queue.Commands.{Redis, last?, init}
use regent_backend.Ai.Queue.{
  Job, Dequeued, got, no_faults, enqueue, dequeue, remove_user, remaining, unmarshal, after_pop,
  pop_from, dequeue_of,
}

last?-map {ℓ κ} :
    {A : Type ℓ} {B : Type κ} (f : A → B) (x : A) (xs : List A)
    → (y : A) × (last? (x ∷ xs) ≡ some y) × (last? (map f (x ∷ xs)) ≡ some (f y))
last?-map f x [] = (x, refl, refl)
last?-map f x (y ∷ xs) = last?-map f y xs

init-map {ℓ κ} :
    {A : Type ℓ} {B : Type κ} (f : A → B) (xs : List A) → init (map f xs) ≡ map f (init xs)
init-map f [] = refl
init-map f (x ∷ []) = refl
init-map f (x ∷ y ∷ xs) = ap (λ l. f x ∷ l) (init-map f (y ∷ xs))

List-cases {ℓ} : {A : Type ℓ} (xs : List A) → (xs ≡ []) ⊎ (xs ≢ [])
List-cases [] = inl refl
List-cases (x ∷ xs) = inr (λ e. cc)

-- The priority under which a user waits: that of the newest job.
abbrev pub newest_priority : List Job → Option ℕ
newest_priority [] = none
newest_priority (j ∷ js) = some j.priority

newest_priority-none : (js : List Job) → newest_priority js ≡ none → js ≡ []
newest_priority-none [] h = refl
newest_priority-none (j ∷ js) h = cc

newest_priority-init :
    (js : List Job) → init js ≢ [] → newest_priority (init js) ≡ newest_priority js
newest_priority-init [] h = refl
newest_priority-init (j ∷ []) h = absurd (h refl)
newest_priority-init (j ∷ k ∷ js) h = refl

-- The abstract queue: the waiting jobs of each user, newest first.
abbrev pub Waiting : Type 0
Waiting = ℕ → List Job

abbrev pub update : ℕ → (List Job → List Job) → Waiting → Waiting
update u f q v = if u == v then f (q v) else q v

module _ (r : Redis Job) where
  open r use {
    State, Data, encode, decode, items, score, lpush, zadd, zrem, rpop, llen, first_member,
    decode-encode, items-lpush, score-lpush, items-zadd, score-zadd, items-zrem, score-zrem,
    popped-rpop, items-rpop, score-rpop, llen-length, first_member-none, first_member-some,
  }

  pub record Represents (s : State) (q : Waiting) : Type 0 where
    pub stored : (u : ℕ) → items s u ≡ map encode (q u)
    pub ranked : (u : ℕ) → score s u ≡ newest_priority (q u)

  -- An enqueued job is the newest of its user, and the user waits under its priority.
  pub enqueue-Represents :
      (job : Job) (s : State) (q : Waiting)
      → Represents s q
      → Represents (enqueue r true true job s).0 (update job.user_id (λ js. job ∷ js) q)
  unfolding enqueue
  enqueue-Represents job s q h = record {
    stored = λ u. ground (
      arith,
      items-zadd job.user_id job.priority (lpush job.user_id (encode job) s) u,
      items-lpush job.user_id (encode job) s u,
      h.stored u,
    );
    ranked = λ u. ground (
      arith,
      score-zadd job.user_id job.priority (lpush job.user_id (encode job) s) u,
      score-lpush job.user_id (encode job) s u,
      h.ranked u,
    );
  }

  -- The lists after a pop.
  rpop-stored :
      (s : State) (q : Waiting) (u v : ℕ)
      → Represents s q
      → items (rpop u s).1 v ≡ map encode (update u init q v)
  rpop-stored s q u v h = ground (arith, items-rpop u s v, h.stored v, init-map encode (q v))

  -- The pop leaves jobs behind: the user waits on.
  pop-more :
      (s : State) (q : Waiting) (u : ℕ)
      → Represents s q
      → init (q u) ≢ []
      → Represents (rpop u s).1 (update u init q)
  pop-more s q u h more = record {
    stored = λ v. rpop-stored s q u v h;
    ranked = λ v. score-rpop u s v ∙ h.ranked v ∙ sym (rest v (Bool-cases (u == v)));
  }
    where
      rest :
          (v : ℕ)
          → ((u == v) ≡ true) ⊎ ((u == v) ≡ false)
          → newest_priority (update u init q v) ≡ newest_priority (q v)
      rest v (inl e) =
          rw e (newest_priority-init (q v) (subst (λ w. init (q w) ≢ []) ((==_iff u v).0 e) more))
      rest v (inr e) = rw e

  -- The pop takes the last job: the user is removed.
  pop-last :
      (s : State) (q : Waiting) (u : ℕ)
      → Represents s q
      → init (q u) ≡ []
      → Represents (zrem u (rpop u s).1) (update u init q)
  pop-last s q u h none_left = record {
    stored = λ v. items-zrem u (rpop u s).1 v ∙ rpop-stored s q u v h;
    ranked = λ v. ground (arith, score-zrem u (rpop u s).1 v, score-rpop u s v, h.ranked v);
  }

  left_none :
      (s : State) (q : Waiting) (u : ℕ)
      → Represents s q
      → init (q u) ≡ []
      → (llen u (rpop u s).1 == 0) ≡ true
  left_none s q u h e = ground (arith, llen-length u (rpop u s).1, rpop-stored s q u u h)

  left_some :
      (s : State) (q : Waiting) (u : ℕ)
      → Represents s q
      → init (q u) ≢ []
      → (llen u (rpop u s).1 == 0) ≡ false
  left_some s q u h e = ground (arith, llen-length u (rpop u s).1, rpop-stored s q u u h)

  -- A user with jobs loses the oldest one to the caller.
  pop_from-served :
      (s : State) (q : Waiting) (u : ℕ) (j : Job)
      → Represents s q
      → last? (q u) ≡ some j
      → last? (map encode (q u)) ≡ some (encode j)
      → ((pop_from r no_faults u s).1 ≡ got (some j))
        × Represents (pop_from r no_faults u s).0 (update u init q)
  unfolding pop_from after_pop remaining unmarshal remove_user
  pop_from-served s q u j h oldest coded = rw (popped-rpop u s ∙ ap last? (h.stored u) ∙ coded) (
    rw (decode-encode j, unmarshal),
    elim (List-cases (init (q u))) [
      | inl e ↦ rw (left_none s q u h e) (pop-last s q u h e)
      | inr e ↦ rw (left_some s q u h e) (pop-more s q u h e)
    ],
  )

  -- What `Dequeue` does to the waiting jobs.
  abbrev pub Dequeues : Waiting → State × Dequeued → Type 0
  Dequeues q (s', answer) =
      (((u : ℕ) → q u ≡ []) × (answer ≡ got none) × Represents s' q)
      ⊎ ((u : ℕ) × (j : Job) × (p : ℕ) × (last? (q u) ≡ some j)
          × (newest_priority (q u) ≡ some p)
          × ((v n : ℕ) → newest_priority (q v) ≡ some n → n ≤ p)
          × (answer ≡ got (some j))
          × Represents s' (update u init q))

  dequeue_of-Dequeues :
      (s : State) (q : Waiting) (m : Option ℕ)
      → Represents s q
      → first_member s ≡ m
      → Dequeues q (dequeue_of r no_faults m s)
  unfolding dequeue_of
  dequeue_of-Dequeues s q none h e =
      inl (λ u. newest_priority-none (q u) (sym (h.ranked u) ∙ first_member-none s e u), refl, h)
  dequeue_of-Dequeues s q (some u) h e = serve (q u) refl (first_member-some s u e)
    where
      serve :
          (js : List Job)
          → q u ≡ js
          → ((p : ℕ) × (score s u ≡ some p) × ((j n : ℕ) → score s j ≡ some n → n ≤ p))
          → Dequeues q (pop_from r no_faults u s)
      serve [] none_here (p, has, best) =
          absurd
            (let bad : some p ≡ none = sym has ∙ h.ranked u ∙ ap newest_priority none_here in cc)
      serve (x ∷ js) here (p, has, best) =
          let (y, oldest, coded) = last?-map encode x js in
          let oldest' : last? (q u) ≡ some y = ap last? here ∙ oldest in
          let coded' : last? (map encode (q u)) ≡ some (encode y) =
            ap (λ l. last? (map encode l)) here ∙ coded in
          let (answer, state) = pop_from-served s q u y h oldest' coded' in
          inr (
            u,
            y,
            p,
            oldest',
            sym (h.ranked u) ∙ has,
            λ v n f. best v n (h.ranked v ∙ f),
            answer,
            state,
          )

  -- While Redis answers, `Dequeue` returns nil exactly if no user has a job, and otherwise the
  -- oldest job of a user whose newest job has the highest priority; that job alone is taken.
  pub dequeue-Dequeues :
      (s : State) (q : Waiting) → Represents s q → Dequeues q (dequeue r no_faults s)
  unfolding dequeue
  dequeue-Dequeues s q h = dequeue_of-Dequeues s q (first_member s) h refl
