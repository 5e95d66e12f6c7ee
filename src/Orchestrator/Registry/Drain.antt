-- ===== src/Orchestrator/Registry/Drain.antt =====
-- The end of all bundles: `DrainAll`.
use regent_backend.Base.{
  ℕ, ◌+◌, ◌≡◌, refl, sym, ap, ◌∙◌, Bool, true, not, List, [], ◌∷◌, arith, length, ==_iff, Reach,
  here, next, All, All-map, first_step, Reach-trans, count, count_mono,
}
use regent_backend.Orchestrator.Registry.{
  Entry, Registry, new_service_registry, delete, bundle_count, waited_for, drained, ctx_done,
  cancel, stop_each, stop_all, Step, launches, drains, ends, leaves,
}
use regent_backend.Orchestrator.Registry.Cancels.{
  ctx_done-stop_each, ctx_done-cancel, ctx_done-Reach, stop_all-Done,
}
use regent_backend.Orchestrator.Registry.Invariant.{Reach-Inv, Reach-one_bundle}

alive : Registry → Entry → Bool
alive s e = not (ctx_done s e.bundle)

stop_each-alive :
    (entries : List Entry) (s : Registry) → count (alive (stop_each entries s)) entries ≡ 0
unfolding stop_each alive
stop_each-alive [] s = refl
stop_each-alive (e ∷ rest) s =
    let mine = ctx_done-stop_each rest (cancel e.bundle s) e.bundle (ctx_done-cancel e.bundle s) in
    ground (arith, mine, stop_each-alive rest (cancel e.bundle s))

-- What the cancels keep.
record Same (s t : Registry) : Type 0 where
  bundles : t.bundles ≡ s.bundles
  starting : t.starting ≡ s.starting
  running : t.running ≡ s.running
  leaving : t.leaving ≡ s.leaving

stop_each-Same : (entries : List Entry) (s : Registry) → Same s (stop_each entries s)
unfolding stop_each cancel
stop_each-Same [] s = record { bundles = refl; starting = refl; running = refl; leaving = refl }
stop_each-Same (e ∷ rest) s =
    let more = stop_each-Same rest (cancel e.bundle s) in
    record {
      bundles = more.bundles;
      starting = more.starting;
      running = more.running;
      leaving = more.leaving;
    }

launch_all :
    (entries : List Entry) (s : Registry)
    → s.starting ≡ entries
    → (t : Registry) × Reach Step s t
      × (t.starting ≡ [])
      × ((b : ℕ) → ctx_done t b ≡ ctx_done s b)
      × ((p : Entry → Bool) → count p t.running ≡ count p entries + count p s.running)
unfolding ctx_done
launch_all [] s h = (s, here, h, λ b. refl, λ p. omega arith)
launch_all (e ∷ rest) s h =
    let s' = record s { starting = rest; running = e ∷ s.running } in
    let (t, steps, a, b, c) = launch_all rest s' refl in
    (t, first_step Step (launches [] rest e h refl) steps, a, b, λ p. omega (arith, c p))

end_all :
    (entries : List Entry) (s : Registry)
    → s.running ≡ entries
    → count (alive s) entries ≡ 0
    → (t : Registry) × Reach Step s t
      × (t.running ≡ [])
      × (t.starting ≡ s.starting)
      × ((b : ℕ) → ctx_done t b ≡ ctx_done s b)
unfolding alive ctx_done
end_all [] s h dead = (s, here, h, refl, λ b. refl)
end_all (e ∷ rest) s h dead =
    let s' = record s {
      running = rest;
      leaving = e ∷ s.leaving;
      bundles = delete e.user s.bundles;
    } in
    let (t, steps, a, b, c) = end_all rest s' refl (ground (arith, dead)) in
    (t, first_step Step (ends [] rest e h (ground (arith, dead)) refl) steps, a, b, c)

leave_all :
    (entries : List Entry) (s : Registry)
    → s.leaving ≡ entries
    → (t : Registry) × Reach Step s t
      × (t.leaving ≡ [])
      × (t.running ≡ s.running)
      × (t.starting ≡ s.starting)
      × ((b : ℕ) → ctx_done t b ≡ ctx_done s b)
unfolding ctx_done
leave_all [] s h = (s, here, h, refl, refl, λ b. refl)
leave_all (e ∷ rest) s h =
    let (t, steps, a, b, c, d) = leave_all rest (record s { leaving = rest }) refl in
    (t, first_step Step (leaves [] rest e h refl) steps, a, b, c, d)

no_entries : (entries : List Entry) → count (λ e. true) entries ≡ 0 → entries ≡ []
no_entries [] h = refl
no_entries (e ∷ rest) h = absurd (omega (arith, h))

empty : (entries : List Entry) → length entries ≡ 0 → entries ≡ []
empty [] h = refl
empty (e ∷ rest) h = absurd (omega (arith, h))

running-dead :
    (s : Registry) (entries : List Entry) (t : Registry)
    → Reach Step new_service_registry (stop_all s)
    → ((b : ℕ) → ctx_done t b ≡ ctx_done (stop_all s) b)
    → ((p : Entry → Bool)
        → count p entries ≡ count p (stop_all s).starting + count p (stop_all s).running)
    → count (alive t) entries ≡ 0
unfolding stop_all alive
running-dead s entries t steps same counts =
    let d = stop_all s in
    let inv = Reach-Inv steps in
    let fewer = count_mono (alive t) (alive d) (λ e h. rw (sym (same e.bundle)) h) d.bundles in
    let kept = ap (count (alive d)) (stop_each-Same s.bundles s).bundles in
    omega (arith, counts (alive t), inv.matched (alive t), fewer, kept, stop_each-alive s.bundles s)

-- The loop of `DrainAll` over the bundles, in whatever state it begins, ends the context of every bundle
-- in the map, and whatever happens after does not take that back. After it all can come to an end with
-- no more of a cancel: there is a run, in which no further context ends, after which the map is empty
-- and no goroutine is left to wait for, and so `DrainAll` returns without its timeout.
pub Reach-drained :
    (s : Registry)
    → Reach Step new_service_registry s
    → ((t : Registry) → Reach Step (stop_all s) t → All (λ e. ctx_done t e.bundle ≡ true) s.bundles)
      × ((t : Registry) × Reach Step (stop_all s) t
          × ((b : ℕ) → ctx_done t b ≡ ctx_done (stop_all s) b)
          × (drained t ≡ true)
          × (bundle_count t ≡ 0))
unfolding stop_all drained waited_for bundle_count alive
Reach-drained s before =
    let d = stop_all s in
    let after_stop = next before (drains refl) in
    let (t1, to_t1, a1, b1, c1) = launch_all d.starting d refl in
    let dead = running-dead s t1.running t1 after_stop b1 c1 in
    let (t2, to_t2, a2, b2, c2) = end_all t1.running t1 refl dead in
    let (t3, to_t3, a3, b3, c3, d3) = leave_all t2.leaving t2 refl in
    let steps = Reach-trans Step to_t1 (Reach-trans Step to_t2 to_t3) in
    let none_runs = b3 ∙ a2 in
    let none_starts = c3 ∙ b2 ∙ a1 in
    let inv = Reach-Inv (Reach-trans Step after_stop steps) in
    let all = inv.matched (λ e. true) in
    (
      (λ t more.
          All-map (λ e h. ctx_done-Reach (stop_all s) t e.bundle more h) s.bundles
            (stop_all-Done s)),
      (
        t3,
        steps,
        (λ b. d3 b ∙ c2 b ∙ b1 b),
        rw (none_runs, a3) (ground arith),
        omega (
          arith,
          all,
          ap length (
              no_entries t3.bundles (
                omega (
                  arith,
                  all,
                  ap (count (λ e. true)) none_runs,
                  ap (count (λ e. true)) none_starts,
                ))),
        ),
      ),
    )

-- When the wait group is at zero, the bundles left in the map are those that a `Spawn` is starting: no
-- other one has a goroutine.
pub drained-bundle_count :
    (s : Registry)
    → Reach Step new_service_registry s
    → drained s ≡ true
    → (s.running ≡ []) × (s.leaving ≡ []) × (bundle_count s ≡ length s.starting)
unfolding drained waited_for bundle_count
drained-bundle_count s steps h =
    let zero_sum = (==_iff (length s.running + length s.leaving) 0).0 h in
    let idle = empty s.running (omega (arith, zero_sum)) in
    let size = (Reach-one_bundle s steps).1 in
    (idle, empty s.leaving (omega (arith, zero_sum)), omega (arith, size, ap length idle))
