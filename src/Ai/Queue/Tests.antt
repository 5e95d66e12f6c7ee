-- ===== src/Ai/Queue/Tests.antt =====
-- The queue over a Redis of lists: one list of jobs, and at most one score, for each user number.
use regent_backend.Base.{
  ℕ, zero, suc, ◌≤◌, ◌≡◌, refl, subst, ◌∙◌, sym, ◌≢◌, inl, inr, true, ◌==◌, leb, Bool-cases, Option,
  none, some, List, [], ◌∷◌, length, if◌then◌else◌, arith,
}
use regent_backend.Plan.{free, estate}
use regent_backend.Ai.Queue.Commands.{Redis, last?, init}
use regent_backend.Ai.Queue.{Job, got, no_faults, enqueue, dequeue}
use regent_backend.Ai.Queue.Fair.{
  Waiting, update, Represents, Dequeues, enqueue-Represents, dequeue-Dequeues,
}
use regent_backend.Ai.Queue.Stranded.{len_fault, dequeue-len_fault}

unfoldable pub rank_at : List (Option ℕ) → ℕ → Option ℕ
rank_at [] k = none
rank_at (x ∷ xs) zero = x
rank_at (x ∷ xs) (suc k) = rank_at xs k

unfoldable pub put_rank : ℕ → Option ℕ → List (Option ℕ) → List (Option ℕ)
put_rank zero v [] = v ∷ []
put_rank zero v (x ∷ xs) = v ∷ xs
put_rank (suc k) v [] = none ∷ put_rank k v []
put_rank (suc k) v (x ∷ xs) = x ∷ put_rank k v xs

pub rank_at-put_rank :
    (k : ℕ) (v : Option ℕ) (xs : List (Option ℕ)) (j : ℕ)
    → rank_at (put_rank k v xs) j ≡ (if k == j then v else rank_at xs j)
unfolding rank_at put_rank
rank_at-put_rank zero v [] zero = refl
rank_at-put_rank zero v [] (suc j) = ground arith
rank_at-put_rank zero v (x ∷ xs) zero = refl
rank_at-put_rank zero v (x ∷ xs) (suc j) = ground arith
rank_at-put_rank (suc k) v [] zero = ground arith
rank_at-put_rank (suc k) v [] (suc j) = ground (arith, rank_at-put_rank k v [] j)
rank_at-put_rank (suc k) v (x ∷ xs) zero = ground arith
rank_at-put_rank (suc k) v (x ∷ xs) (suc j) = ground (arith, rank_at-put_rank k v xs j)

unfoldable pub pick : Option ℕ → Option (ℕ × ℕ) → Option (ℕ × ℕ)
pick none none = none
pick none (some (k, q)) = some (suc k, q)
pick (some p) none = some (0, p)
pick (some p) (some (k, q)) = if leb q p then some (0, p) else some (suc k, q)

unfoldable pub best : List (Option ℕ) → Option (ℕ × ℕ)
unfolding pick
best [] = none
best (x ∷ xs) = pick x (best xs)

abbrev IsBest : List (Option ℕ) → Option (ℕ × ℕ) → Type 0
IsBest xs none = (j : ℕ) → rank_at xs j ≡ none
IsBest xs (some (u, p)) = (rank_at xs u ≡ some p) × ((j q : ℕ) → rank_at xs j ≡ some q → q ≤ p)

IsBest-pick :
    (x : Option ℕ) (xs : List (Option ℕ)) (o : Option (ℕ × ℕ))
    → IsBest xs o
    → IsBest (x ∷ xs) (pick x o)
unfolding rank_at pick
IsBest-pick none xs none h = elim [ zero ↦ refl | suc j ↦ h j ]
IsBest-pick none xs (some (k, q)) h = (h.0, elim [ zero ↦ λ r e. cc | suc j ↦ h.1 j ])
IsBest-pick (some p) xs none h =
    (refl, elim [ zero ↦ λ r e. ground arith | suc j ↦ λ r e. (let bad = sym (h j) ∙ e in cc) ])
IsBest-pick (some p) xs (some (k, q)) h = elim (Bool-cases (leb q p)) [
  | inl le ↦ rw le (
    refl,
    elim [ zero ↦ λ r e. ground arith | suc j ↦ λ r e. (let low = h.1 j r e in ground arith) ],
  )
  | inr gt ↦ rw gt (h.0, elim [ zero ↦ λ r e. ground arith | suc j ↦ λ r e. h.1 j r e ])
]

pub best-IsBest : (xs : List (Option ℕ)) → IsBest xs (best xs)
unfolding best rank_at
best-IsBest [] = λ j. refl
best-IsBest (x ∷ xs) = IsBest-pick x xs (best xs) (best-IsBest xs)

pub record Store : Type 0 where
  pub lists : ℕ → List Job
  pub ranks : List (Option ℕ)

unfoldable pub first_user : Option (ℕ × ℕ) → Option ℕ
first_user none = none
first_user (some (u, p)) = some u

pub first_user-none :
    (xs : List (Option ℕ)) (o : Option (ℕ × ℕ))
    → IsBest xs o
    → first_user o ≡ none
    → (j : ℕ) → rank_at xs j ≡ none
unfolding first_user
first_user-none xs none h e = h
first_user-none xs (some (u, p)) h e = cc

pub first_user-some :
    (xs : List (Option ℕ)) (o : Option (ℕ × ℕ)) (u : ℕ)
    → IsBest xs o
    → first_user o ≡ some u
    → (p : ℕ) × (rank_at xs u ≡ some p) × ((j q : ℕ) → rank_at xs j ≡ some q → q ≤ p)
unfolding first_user
first_user-some xs none u h e = cc
first_user-some xs (some (v, p)) u h e =
    let same : v ≡ u = cc e in (p, subst (λ w. rank_at xs w ≡ some p) same h.0, h.1)

abbrev pub store_redis : Redis Job
store_redis = record {
  State = Store;
  Data = Job;
  encode = λ j. j;
  decode = some;
  items = λ s. s.lists;
  score = λ s. rank_at s.ranks;
  lpush = λ k d s. record s { lists = λ j. if k == j then d ∷ s.lists j else s.lists j };
  zadd = λ k n s. record s { ranks = put_rank k (some n) s.ranks };
  zrem = λ k s. record s { ranks = put_rank k none s.ranks };
  rpop = λ k s.
      (last? (s.lists k), record s { lists = λ j. if k == j then init (s.lists j) else s.lists j });
  llen = λ k s. length (s.lists k);
  first_member = λ s. first_user (best s.ranks);
  decode-encode = λ a. refl;
  items-lpush = λ k d s j. refl;
  score-lpush = λ k d s j. refl;
  items-zadd = λ k n s j. refl;
  score-zadd = λ k n s j. rank_at-put_rank k (some n) s.ranks j;
  items-zrem = λ k s j. refl;
  score-zrem = λ k s j. rank_at-put_rank k none s.ranks j;
  popped-rpop = λ k s. refl;
  items-rpop = λ k s j. refl;
  score-rpop = λ k s j. refl;
  llen-length = λ k s. refl;
  first_member-none = λ s e. first_user-none s.ranks (best s.ranks) (best-IsBest s.ranks) e;
  first_member-some = λ s u e. first_user-some s.ranks (best s.ranks) u (best-IsBest s.ranks) e;
}

abbrev empty_store : Store
empty_store = record { lists = λ u. []; ranks = [] }

abbrev pub job_a : Job
job_a = record {
  email_id = 1;
  user_id = 0;
  tenant_id = 9;
  plan = free;
  priority = 10;
  enqueued_at = 100;
}

abbrev pub job_b : Job
job_b = record {
  email_id = 2;
  user_id = 1;
  tenant_id = 9;
  plan = estate;
  priority = 40;
  enqueued_at = 101;
}

abbrev one_job : Waiting
one_job = update 0 (λ js. job_a ∷ js) (λ u. [])

abbrev two_jobs : Waiting
two_jobs = update 1 (λ js. job_b ∷ js) one_job

empty_store-Represents : Represents store_redis empty_store (λ u. [])
unfolding rank_at
empty_store-Represents = record { stored = λ u. refl; ranked = λ u. refl }

abbrev pub store_one : Store
store_one = (enqueue store_redis true true job_a empty_store).0

abbrev pub store_two : Store
store_two = (enqueue store_redis true true job_b store_one).0

enqueue-Represents_example : Represents store_redis store_one one_job
enqueue-Represents_example =
    enqueue-Represents store_redis job_a empty_store (λ u. []) empty_store-Represents

dequeue-Dequeues_example : Dequeues store_redis two_jobs (dequeue store_redis no_faults store_two)
dequeue-Dequeues_example = dequeue-Dequeues store_redis store_two two_jobs (
    enqueue-Represents store_redis job_b store_one one_job
      (enqueue-Represents store_redis job_a empty_store (λ u. []) empty_store-Represents))

estate_first : (dequeue store_redis no_faults store_two).1 ≡ got (some job_b)
unfolding dequeue enqueue rank_at put_rank best first_user
estate_first = refl

abbrev store_twice : Store
store_twice = (enqueue store_redis true true job_a store_one).0

dequeue-len_fault_example :
    ((dequeue store_redis len_fault store_twice).0.lists 0 ≢ [])
    × (rank_at (dequeue store_redis len_fault store_twice).0.ranks 0 ≡ none)
unfolding dequeue enqueue rank_at put_rank best first_user
dequeue-len_fault_example = dequeue-len_fault store_redis store_twice 0 refl refl
