-- ===== src/Orchestrator/Registry/Tests.antt =====
-- Two users' bundles: one is spawned twice and started, the other is being started.
use regent_backend.Base.{
  ℕ, ◌≡◌, refl, true, false, All, [], ◌∷◌, length, count, ◌+◌, ◌≤◌, ltb, Reach, here, next,
}
use regent_backend.Orchestrator.Registry.{
  Entry, Registry, new_service_registry, lookup, spawn, stop, cancel, is_running, bundle_count,
  drained, ctx_done, stop_each, stop_all, Step, spawns, launches,
}
use regent_backend.Orchestrator.Registry.Invariant.{of_user, Reach-one_bundle}
use regent_backend.Orchestrator.Registry.Drain.{Reach-drained}

abbrev ada : Entry
ada = record { user = 7; bundle = 0 }

abbrev bob : Entry
bob = record { user = 8; bundle = 1 }

abbrev both : Registry
both = record {
  bundles = bob ∷ (ada ∷ []);
  starting = bob ∷ [];
  running = ada ∷ [];
  leaving = [];
  cancelled = λ b. false;
  shut_down = false;
  made = 2;
}

abbrev ada_only : Registry
ada_only = record both { bundles = ada ∷ []; starting = []; made = 1 }

ada_only-Reach : Reach Step new_service_registry ada_only
unfolding new_service_registry spawn lookup
ada_only-Reach = next (next here (spawns 7 refl)) (launches [] [] ada refl refl)

both-Reach : Reach Step new_service_registry both
unfolding spawn lookup
both-Reach = next (next ada_only-Reach (spawns 7 refl)) (spawns 8 refl)

Reach-one_bundle_example :
    ((user : ℕ)
      → (count (of_user user) both.starting + count (of_user user) both.running ≤ 1)
        × (is_running user both
            ≡ ltb 0 (count (of_user user) both.starting + count (of_user user) both.running)))
    × (bundle_count both ≡ length both.starting + length both.running)
Reach-one_bundle_example = Reach-one_bundle both both-Reach

Reach-drained_example :
    ((t : Registry)
      → Reach Step (stop_all both) t
      → All (λ e. ctx_done t e.bundle ≡ true) both.bundles)
    × ((t : Registry) × Reach Step (stop_all both) t
        × ((b : ℕ) → ctx_done t b ≡ ctx_done (stop_all both) b)
        × (drained t ≡ true)
        × (bundle_count t ≡ 0))
Reach-drained_example = Reach-drained both both-Reach

-- A user spawned after the loop of `DrainAll` runs on: nothing has cancelled the bundle.
late_spawn : ctx_done (spawn 9 (stop_all both)) 2 ≡ false
unfolding ctx_done spawn stop_all stop_each cancel lookup
late_spawn = refl

-- A user who is stopped and spawned again keeps the bundle that is ending.
stop_then_spawn : spawn 7 (stop 7 both) ≡ stop 7 both
unfolding spawn stop cancel lookup
stop_then_spawn = refl
