-- ===== src/Ai/Workers.antt =====
-- The worker pool of internal/ai/queue/worker.go as steps of its loop, of the goroutines that process
-- a job each, and of their surroundings. The semaphore is the number of its free slots; the queue is
-- that of Ai/Queue.antt, over the Redis state.
pub mod Slots
mod Tests
use regent_backend.Base.{
  ℕ, ◌+◌, ◌-◌, ◌<◌, ◌≡◌, Bool, true, false, Option, none, some, List, [], ◌∷◌, ◌++◌,
}
use regent_backend.Ai.Queue.Commands.{Redis}
use regent_backend.Ai.Queue.{Job, Dequeued, got, failed, Faults, dequeue}

pub data Phase : Type 0 where
  -- At the select or in `Acquire`; with a slot, before `Dequeue`; in a pause after it.
  at_top has_slot pausing : Phase
  -- In `wg.Wait`; and after it.
  draining returned : Phase

-- `taken` and `finished` record the jobs that were dequeued and those that were processed, newest
-- first.
pub record Pool (Q : Type 0) : Type 0 where
  pub queue : Q
  pub free : ℕ
  pub running : List Job
  pub taken : List Job
  pub finished : List Job
  pub phase : Phase
  pub cancelled : Bool

-- `NewWorkerPool`, and `Run` before its loop.
unfoldable pub new_pool : {Q : Type 0} → Q → (capacity : ℕ) → Pool Q
new_pool q capacity = record {
  queue = q;
  free = capacity;
  running = [];
  taken = [];
  finished = [];
  phase = at_top;
  cancelled = false;
}

module _ (r : Redis Job) where
  open r use {State}

  pub data Step (s t : Pool State) : Type 0 where
    -- The context ends; someone else sends commands to Redis.
    cancels : t ≡ record s { cancelled = true } → Step s t
    others_act : (q : State) → t ≡ record s { queue = q } → Step s t
    sees_cancel :
        s.phase ≡ at_top → s.cancelled ≡ true → t ≡ record s { phase = draining } → Step s t
    acquires :
        s.phase ≡ at_top
        → 0 < s.free
        → t ≡ record s { free = s.free - 1; phase = has_slot }
        → Step s t
    dequeue_fails :
        (f : Faults) (q : State)
        → s.phase ≡ has_slot
        → dequeue r f s.queue ≡ (q, failed)
        → t ≡ record s { queue = q; free = s.free + 1; phase = pausing }
        → Step s t
    dequeues_nothing :
        (f : Faults) (q : State)
        → s.phase ≡ has_slot
        → dequeue r f s.queue ≡ (q, got none)
        → t ≡ record s { queue = q; free = s.free + 1; phase = pausing }
        → Step s t
    -- The slot goes to the goroutine.
    starts :
        (f : Faults) (q : State) (j : Job)
        → s.phase ≡ has_slot
        → dequeue r f s.queue ≡ (q, got (some j))
        → t ≡ record s { queue = q; running = j ∷ s.running; taken = j ∷ s.taken; phase = at_top }
        → Step s t
    resumes : s.phase ≡ pausing → t ≡ record s { phase = at_top } → Step s t
    stops_pausing :
        s.phase ≡ pausing → s.cancelled ≡ true → t ≡ record s { phase = draining } → Step s t
    -- `Process` returns, whatever it returns, and the slot is released.
    finishes :
        (front back : List Job) (j : Job)
        → s.running ≡ front ++ (j ∷ back)
        → t ≡ record s { free = s.free + 1; running = front ++ back; finished = j ∷ s.finished }
        → Step s t
    returns : s.phase ≡ draining → s.running ≡ [] → t ≡ record s { phase = returned } → Step s t
