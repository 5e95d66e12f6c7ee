-- ===== src/Ai/Queue.antt =====
-- The job queue of internal/ai/queue/queue.go and enqueue.go: a list of jobs for each user, and a
-- sorted set of the users that wait, scored by plan priority. Redis and the JSON coding of a job
-- are parameters; whether a command reaches the server is an input of each operation.
pub mod Commands
pub mod Fair
pub mod Stranded
pub mod Tests
use regent_backend.Base.{ℕ, ◌≡◌, Bool, true, false, ◌&&◌, ◌==◌, Option, none, some, if◌then◌else◌}
use regent_backend.Plan.{Plan, free, attache, privy_council, estate, unlisted}
use Commands.{Redis}

-- Identifiers and times are numbers.
pub record Job : Type 0 where
  pub email_id : ℕ
  pub user_id : ℕ
  pub tenant_id : ℕ
  pub plan : Plan
  pub priority : ℕ
  pub enqueued_at : ℕ

-- The map PlanPriority; 0 for a missing key.
unfoldable pub plan_priority : Plan → ℕ
plan_priority estate = 40
plan_priority privy_council = 30
plan_priority attache = 20
plan_priority free = 10
plan_priority (unlisted n) = 0

-- What `EnqueueEmail` hands to `Enqueue`.
unfoldable pub job_for : (email_id user_id tenant_id : ℕ) → Plan → (now : ℕ) → Job
unfolding plan_priority
job_for email_id user_id tenant_id plan now =
    let p = plan_priority plan in
    record {
      email_id = email_id;
      user_id = user_id;
      tenant_id = tenant_id;
      plan = plan;
      priority = if p == 0 then plan_priority free else p;
      enqueued_at = now;
    }

pub data Dequeued : Type 0 where
  -- The job, or nil when there is none.
  got : Option Job → Dequeued
  failed : Dequeued

-- Which of the commands of a call reach the server.
pub record Faults : Type 0 where
  pub range_ok : Bool
  pub pop_ok : Bool
  pub len_ok : Bool
  pub rem_ok : Bool

abbrev pub no_faults : Faults
no_faults = record { range_ok = true; pop_ok = true; len_ok = true; rem_ok = true }

module _ (r : Redis Job) where
  open r use {State, Data, encode, decode, lpush, zadd, zrem, rpop, llen, first_member}

  -- The two commands of the pipeline are sent together, and each may fail. The Bool is false where
  -- `Enqueue` returns an error.
  unfoldable pub enqueue : (push_ok add_ok : Bool) → Job → State → State × Bool
  enqueue push_ok add_ok job s =
      let s' = if push_ok then lpush job.user_id (encode job) s else s in
      (if add_ok then zadd job.user_id job.priority s' else s', push_ok && add_ok)

  unfoldable pub enqueue_email :
      (push_ok add_ok : Bool) (email_id user_id tenant_id : ℕ) → Plan → ℕ → State → State × Bool
  unfolding enqueue job_for
  enqueue_email push_ok add_ok email_id user_id tenant_id plan now =
      enqueue push_ok add_ok (job_for email_id user_id tenant_id plan now)

  -- `ZRem`, whose error is dropped.
  unfoldable pub remove_user : Bool → ℕ → State → State
  remove_user rem_ok u s = if rem_ok then zrem u s else s

  -- `remaining, _ := LLen(...)`: 0 if the command fails.
  unfoldable pub remaining : Bool → ℕ → State → ℕ
  remaining len_ok u s = if len_ok then llen u s else 0

  unfoldable pub unmarshal : Data → Dequeued
  unmarshal d = elim (decode d) [ none ↦ failed | some j ↦ got (some j) ]

  -- What follows the pop from the chosen user's list.
  unfoldable pub after_pop : Faults → ℕ → Option Data → State → State × Dequeued
  unfolding remove_user remaining unmarshal
  after_pop f u none s = (remove_user f.rem_ok u s, got none)
  after_pop f u (some d) s =
      (if remaining f.len_ok u s == 0 then remove_user f.rem_ok u s else s, unmarshal d)

  unfoldable pub pop_from : Faults → ℕ → State → State × Dequeued
  unfolding after_pop
  pop_from f u s = if f.pop_ok then (let (d, s') = rpop u s in after_pop f u d s') else (s, failed)

  unfoldable pub dequeue_of : Faults → Option ℕ → State → State × Dequeued
  unfolding pop_from
  dequeue_of f none s = (s, got none)
  dequeue_of f (some u) s = pop_from f u s

  unfoldable pub dequeue : Faults → State → State × Dequeued
  unfolding dequeue_of
  dequeue f s = if f.range_ok then dequeue_of f (first_member s) s else (s, failed)

  unfoldable pub queue_length : ℕ → State → ℕ
  queue_length u s = llen u s
