-- ===== src/Orchestrator/Registry.antt =====
-- The service registry (internal/orchestrator/registry.go) and the goroutines it starts, as steps. The
-- map of bundles is a list of entries, at most one for a user; a bundle is known by its number, and
-- its context has ended when its own cancel was called or the registry's context has ended.
pub mod Invariant
mod Cancels
pub mod Drain
mod Tests
use regent_backend.Base.{
  ℕ, zero, suc, ◌+◌, ◌-◌, ◌*◌, ◌/◌, ◌%◌, ◌≤◌, ◌<◌, min, max, ◌≡◌, refl, sym, ap, ◌∙◌, subst, ◌≢◌,
  ◌↔◌, ◌⊎◌, inl, inr, Bool, true, false, ◌&&◌, ◌||◌, not, Option, none, some, List, [], ◌∷◌, ◌++◌,
  map, arith, ltb, leb, ◌==◌, if◌then◌else◌, Bool-cases, Option-cases, All, All-append, length,
  ltb→lt, lt→ltb, leb→le, ==_iff, get_elem?, take, drop, length-take, length-append, count,
  count-append, count-split, count-filter, count_mono, filter,
}

pub record Entry : Type 0 where
  pub user : ℕ
  pub bundle : ℕ

-- `starting` are bundles between the unlock and the `go` of `Spawn`, `running` those in `Run`,
-- `leaving` those whose goroutine has deleted its entry and is about to call `wg.Done`. `made` numbers
-- the bundles.
pub record Registry : Type 0 where
  pub bundles : List Entry
  pub starting : List Entry
  pub running : List Entry
  pub leaving : List Entry
  pub cancelled : ℕ → Bool
  pub shut_down : Bool
  pub made : ℕ

unfoldable pub new_service_registry : Registry
new_service_registry = record {
  bundles = [];
  starting = [];
  running = [];
  leaving = [];
  cancelled = λ b. false;
  shut_down = false;
  made = 0;
}

unfoldable pub lookup : ℕ → List Entry → Option ℕ
lookup user [] = none
lookup user (e ∷ rest) =
    let found = lookup user rest in if e.user == user then some e.bundle else found

unfoldable pub delete : ℕ → List Entry → List Entry
delete user entries = filter (λ e. not (e.user == user)) entries

unfoldable pub is_running : ℕ → Registry → Bool
is_running user s = elim (lookup user s.bundles) [ none ↦ false | some b ↦ true ]

-- `Count`.
unfoldable pub bundle_count : Registry → ℕ
bundle_count s = length s.bundles

-- The counter of the wait group.
unfoldable pub waited_for : Registry → ℕ
waited_for s = length s.running + length s.leaving

-- `Spawn` up to the unlock: nothing where the user has a bundle.
unfoldable pub spawn : ℕ → Registry → Registry
spawn user s =
    let e : Entry = record { user = user; bundle = s.made } in
    elim (lookup user s.bundles) [
      | some b ↦ s
      | none ↦ record s { bundles = e ∷ s.bundles; starting = e ∷ s.starting; made = suc s.made }
    ]

unfoldable pub cancel : ℕ → Registry → Registry
cancel b s = record s { cancelled = λ c. if b == c then true else s.cancelled c }

unfoldable pub stop : ℕ → Registry → Registry
stop user s = elim (lookup user s.bundles) [ none ↦ s | some b ↦ cancel b s ]

-- The loop of `DrainAll` over the bundles.
unfoldable pub stop_each : List Entry → Registry → Registry
stop_each [] s = s
stop_each (e ∷ rest) s = stop_each rest (cancel e.bundle s)

unfoldable pub stop_all : Registry → Registry
stop_all s = stop_each s.bundles s

-- What `DrainAll` answers at its timeout: whether the wait group is at zero.
unfoldable pub drained : Registry → Bool
drained s = waited_for s == 0

-- The context of a bundle.
unfoldable pub ctx_done : Registry → ℕ → Bool
ctx_done s b = s.shut_down || s.cancelled b

pub data Step (s t : Registry) : Type 0 where
  spawns : (user : ℕ) → t ≡ spawn user s → Step s t
  launches :
      (front back : List Entry) (e : Entry)
      → s.starting ≡ front ++ (e ∷ back)
      → t ≡ record s { starting = front ++ back; running = e ∷ s.running }
      → Step s t
  stops : (user : ℕ) → t ≡ stop user s → Step s t
  drains : t ≡ stop_all s → Step s t
  shuts_down : t ≡ record s { shut_down = true } → Step s t
  -- `Run` returns, and the entry of its user is deleted.
  ends :
      (front back : List Entry) (e : Entry)
      → s.running ≡ front ++ (e ∷ back)
      → ctx_done s e.bundle ≡ true
      → t ≡ record s {
        running = front ++ back;
        leaving = e ∷ s.leaving;
        bundles = delete e.user s.bundles;
      }
      → Step s t
  leaves :
      (front back : List Entry) (e : Entry)
      → s.leaving ≡ front ++ (e ∷ back)
      → t ≡ record s { leaving = front ++ back }
      → Step s t
