-- ===== src/Orchestrator/Registry/Cancels.antt =====
-- Contexts that have ended stay so; which ones the loop of `DrainAll` ends.
use regent_backend.Base.{
  ℕ, ◌≡◌, refl, true, List, [], ◌∷◌, arith, Reach, here, next, All, Option-cases, inl, inr,
}
use regent_backend.Orchestrator.Registry.{
  Entry, Registry, ctx_done, lookup, spawn, stop, cancel, stop_each, stop_all, Step, spawns, stops,
  shuts_down, launches, drains, ends, leaves,
}

pub ctx_done-stop_each :
    (entries : List Entry) (s : Registry) (b : ℕ)
    → ctx_done s b ≡ true
    → ctx_done (stop_each entries s) b ≡ true
unfolding stop_each ctx_done cancel
ctx_done-stop_each [] s b h = h
ctx_done-stop_each (e ∷ rest) s b h =
    ctx_done-stop_each rest (cancel e.bundle s) b (ground (arith, h))

pub ctx_done-cancel : (b : ℕ) (s : Registry) → ctx_done (cancel b s) b ≡ true
unfolding ctx_done cancel
ctx_done-cancel b s = ground arith

ctx_done-spawn : (user : ℕ) (s : Registry) (b : ℕ) → ctx_done (spawn user s) b ≡ ctx_done s b
unfolding spawn ctx_done
ctx_done-spawn user s b = elim (Option-cases (lookup user s.bundles)) [
  | inl e ↦ rw (e, spawn) refl
  | inr (c, e) ↦ rw (e, spawn) refl
]

ctx_done-stop :
    (user : ℕ) (s : Registry) (b : ℕ) → ctx_done s b ≡ true → ctx_done (stop user s) b ≡ true
unfolding stop ctx_done cancel
ctx_done-stop user s b h = elim (Option-cases (lookup user s.bundles)) [
  | inl e ↦ rw (e, stop) h
  | inr (c, e) ↦ rw (e, stop) (ground (arith, h))
]

-- A step never takes a cancel back.
ctx_done-Step : (s t : Registry) (b : ℕ) → Step s t → ctx_done s b ≡ true → ctx_done t b ≡ true
unfolding ctx_done stop_all
ctx_done-Step s t b (spawns user e) h = rw (e, ctx_done-spawn user s b) h
ctx_done-Step s t b (launches front back x a e) h = rw e h
ctx_done-Step s t b (stops user e) h = rw e (ctx_done-stop user s b h)
ctx_done-Step s t b (drains e) h = rw e (ctx_done-stop_each s.bundles s b h)
ctx_done-Step s t b (shuts_down e) h = rw e refl
ctx_done-Step s t b (ends front back x a c e) h = rw e h
ctx_done-Step s t b (leaves front back x a e) h = rw e h

pub ctx_done-Reach :
    (s t : Registry) (b : ℕ) → Reach Step s t → ctx_done s b ≡ true → ctx_done t b ≡ true
ctx_done-Reach s t b here h = h
ctx_done-Reach s t b (next steps step) h = ctx_done-Step _ t b step (ctx_done-Reach s _ b steps h)

stop_each-Done :
    (entries : List Entry) (s : Registry)
    → All (λ e. ctx_done (stop_each entries s) e.bundle ≡ true) entries
unfolding stop_each
stop_each-Done [] s = tt
stop_each-Done (e ∷ rest) s = (
  ctx_done-stop_each rest (cancel e.bundle s) e.bundle (ctx_done-cancel e.bundle s),
  stop_each-Done rest (cancel e.bundle s),
)

pub stop_all-Done : (s : Registry) → All (λ e. ctx_done (stop_all s) e.bundle ≡ true) s.bundles
unfolding stop_all
stop_all-Done s = stop_each-Done s.bundles s
