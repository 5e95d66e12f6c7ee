-- ===== src/Ai/Workers/Tests.antt =====
-- A run of a pool of one worker over a toy Redis that holds two jobs.
use regent_backend.Base.{
  Reach, here, next, count, refl, ◌≡◌, ◌≤◌, ◌+◌, Bool, true, [], ◌∷◌, length, arith,
}
use regent_backend.Ai.Queue.{Job, no_faults, enqueue, dequeue}
use regent_backend.Ai.Queue.Tests.{
  Store, store_redis, store_two, job_b, rank_at, put_rank, best, first_user,
}
use regent_backend.Ai.Workers.{
  at_top, has_slot, returned, Pool, new_pool, Step, cancels, acquires, starts,
}
use regent_backend.Ai.Workers.Slots.{Reach-new_pool, Reach-drains}

abbrev first : Pool Store
first = new_pool store_two 1

abbrev holding : Pool Store
holding = record first { free = 0; phase = has_slot }

abbrev working : Pool Store
working = record holding {
  queue = (dequeue store_redis no_faults store_two).0;
  running = job_b ∷ [];
  taken = job_b ∷ [];
  phase = at_top;
}

abbrev stopping : Pool Store
stopping = record working { cancelled = true }

working-Reach : Reach (Step store_redis) (new_pool store_two 1) working
unfolding new_pool dequeue enqueue rank_at put_rank best first_user
working-Reach =
    next (next here (acquires refl (omega arith) refl))
      (starts no_faults (dequeue store_redis no_faults store_two).0 job_b refl refl refl)

Reach-new_pool_example :
    (length working.running ≤ 1)
    × ((p : Job → Bool)
        → count p working.taken ≡ count p working.running + count p working.finished)
Reach-new_pool_example = Reach-new_pool store_redis store_two 1 working working-Reach

Reach-drains_example :
    (stopping.phase ≡ returned
      → (stopping.running ≡ [])
        × ((p : Job → Bool) → count p stopping.taken ≡ count p stopping.finished))
    × (stopping.phase ≡ at_top
        → stopping.cancelled ≡ true
        → (t : Pool Store) × Reach (Step store_redis) stopping t
          × (t.phase ≡ returned)
          × (t.taken ≡ stopping.taken)
          × ((p : Job → Bool) → count p stopping.taken ≡ count p t.finished))
Reach-drains_example =
    Reach-drains store_redis store_two 1 stopping (next working-Reach (cancels refl))
