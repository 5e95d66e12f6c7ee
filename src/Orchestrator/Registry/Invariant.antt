-- ===== src/Orchestrator/Registry/Invariant.antt =====
-- The map of bundles and the goroutines agree: one bundle for a user at most.
use regent_backend.Base.{
  Reach, here, next, ℕ, ◌+◌, ◌≤◌, ◌≡◌, refl, ap, ◌∙◌, subst, inl, inr, Bool, true, false, none,
  some, List, [], ◌∷◌, ◌++◌, arith, ltb, ◌==◌, if◌then◌else◌, Bool-cases, Option-cases, length,
  ==_iff, count, count-append, count-filter_one,
}
use regent_backend.Orchestrator.Registry.{
  Entry, Registry, new_service_registry, lookup, delete, is_running, bundle_count, spawn, cancel,
  stop, stop_each, stop_all, Step, spawns, launches, stops, drains, shuts_down, ends, leaves,
}

abbrev pub of_user : ℕ → Entry → Bool
of_user user e = e.user == user

pub record Inv (s : Registry) : Type 0 where
  pub matched : (p : Entry → Bool) → count p s.bundles ≡ count p s.starting + count p s.running
  pub single : (user : ℕ) → count (of_user user) s.bundles ≤ 1

pub lookup-none :
    (user : ℕ) (entries : List Entry)
    → lookup user entries ≡ none
    → count (of_user user) entries ≡ 0
unfolding lookup
lookup-none user [] h = refl
lookup-none user (e ∷ rest) h = ground (arith, lookup-none user rest, h)

pub lookup-some :
    (user b : ℕ) (entries : List Entry)
    → lookup user entries ≡ some b
    → 1 ≤ count (of_user user) entries
unfolding lookup
lookup-some user b [] h = cc (h)
lookup-some user b (e ∷ rest) h = ground (arith, lookup-some user b rest, h)

-- `cancel` changes nothing but the contexts.
pub Inv-cancel : (b : ℕ) (s : Registry) → Inv s → Inv (cancel b s)
unfolding cancel
Inv-cancel b s inv = record { matched = inv.matched; single = inv.single }

pub Inv-stop_each : (entries : List Entry) (s : Registry) → Inv s → Inv (stop_each entries s)
unfolding stop_each
Inv-stop_each [] s inv = inv
Inv-stop_each (e ∷ rest) s inv = Inv-stop_each rest (cancel e.bundle s) (Inv-cancel e.bundle s inv)

one_more :
    (user b : ℕ) (entries : List Entry)
    → lookup user entries ≡ none
    → (u : ℕ) → count (of_user u) entries ≤ 1
    → count (of_user u) (record { user = user; bundle = b } ∷ entries) ≤ 1
one_more user b entries h u le = elim (Bool-cases (user == u)) [
  | inl e ↦
      (let same : user ≡ u = (==_iff user u).0 e in
        let zero_of = lookup-none user entries h in
        rw e (subst (λ w. 1 + count (of_user w) entries ≤ 1) same (omega (arith, zero_of))))
  | inr e ↦ ground (arith, e, le)
]

Inv-spawn : (user : ℕ) (s : Registry) → Inv s → Inv (spawn user s)
unfolding spawn
Inv-spawn user s inv = elim (Option-cases (lookup user s.bundles)) [
  | inl h ↦
      rw (spawn, h)
        (record {
          matched = λ p. omega (arith, inv.matched p);
          single = λ u. one_more user s.made s.bundles h u (inv.single u);
        })
  | inr (b, h) ↦ rw (spawn, h) inv
]

Inv-stop : (user : ℕ) (s : Registry) → Inv s → Inv (stop user s)
unfolding stop
Inv-stop user s inv = elim (Option-cases (lookup user s.bundles)) [
  | inl h ↦ rw (stop, h) inv
  | inr (b, h) ↦ rw (stop, h) (Inv-cancel b s inv)
]

-- The entries that the deletion of a running bundle's user leaves.
count-delete :
    (s : Registry) (front back : List Entry) (e : Entry)
    → Inv s
    → s.running ≡ front ++ (e ∷ back)
    → (p : Entry → Bool)
    → count p (delete e.user s.bundles) + (if p e then 1 else 0) ≡ count p s.bundles
unfolding delete
count-delete s front back e inv h p =
    count-filter_one p (of_user e.user) s.bundles e (inv.single e.user)
      ((==_iff e.user e.user).1 refl)
      (λ r self.
        (let taken = ap (count r) h in
          ground (arith, taken, inv.matched r, count-append r front (e ∷ back), self)))

Step-Inv : (s t : Registry) → Step s t → Inv s → Inv t
unfolding stop_all
Step-Inv s t (spawns user e) inv = rw e (Inv-spawn user s inv)
Step-Inv s t (launches front back a h e) inv = rw e (record {
  matched = λ p. omega (
    arith,
    inv.matched p,
    ap (count p) h,
    count-append p front (a ∷ back),
    count-append p front back,
  );
  single = inv.single;
})
Step-Inv s t (stops user e) inv = rw e (Inv-stop user s inv)
Step-Inv s t (drains e) inv = rw e (Inv-stop_each s.bundles s inv)
Step-Inv s t (shuts_down e) inv = rw e (record { matched = inv.matched; single = inv.single })
Step-Inv s t (ends front back a h c e) inv =
    let kept = count-delete s front back a inv h in
    rw e (record {
      matched = λ p. omega (
        arith,
        kept p,
        inv.matched p,
        ap (count p) h,
        count-append p front (a ∷ back),
        count-append p front back,
      );
      single = λ u. omega (arith, kept (of_user u), inv.single u);
    })
Step-Inv s t (leaves front back a h e) inv =
    rw e (record { matched = inv.matched; single = inv.single })

pub Reach-Inv : {t : Registry} → Reach Step new_service_registry t → Inv t
unfolding new_service_registry
Reach-Inv here = record { matched = λ p. omega arith; single = λ u. omega arith }
Reach-Inv (next steps step) = Step-Inv _ _ step (Reach-Inv steps)

is_running-count :
    (user : ℕ) (entries : List Entry)
    → elim (lookup user entries) [ none ↦ false | some b ↦ true ]
      ≡ ltb 0 (count (of_user user) entries)
is_running-count user entries = elim (Option-cases (lookup user entries)) [
  | inl h ↦ rw h (ground (arith, lookup-none user entries h))
  | inr (b, h) ↦ rw h (ground (arith, lookup-some user b entries h))
]

length-count : (entries : List Entry) → length entries ≡ count (λ e. true) entries
length-count [] = refl
length-count (e ∷ rest) = omega (arith, length-count rest)

-- However spawns, stops, drains and ends of bundles take turns: a user has at most one bundle that is
-- starting or running, `IsRunning` says whether there is one, and `Count` is the number of all such
-- bundles.
pub Reach-one_bundle :
    (t : Registry)
    → Reach Step new_service_registry t
    → ((user : ℕ)
        → (count (of_user user) t.starting + count (of_user user) t.running ≤ 1)
          × (is_running user t
              ≡ ltb 0 (count (of_user user) t.starting + count (of_user user) t.running)))
      × (bundle_count t ≡ length t.starting + length t.running)
unfolding is_running bundle_count
Reach-one_bundle t steps =
    let inv = Reach-Inv steps in
    (
      (λ user.
          (let same = inv.matched (of_user user) in
            (
              omega (arith, same, inv.single user),
              is_running-count user t.bundles ∙ ap (ltb 0) same,
            ))),
      omega (
        arith,
        inv.matched (λ e. true),
        length-count t.bundles,
        length-count t.starting,
        length-count t.running,
      ),
    )
