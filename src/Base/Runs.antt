-- ===== src/Base/Runs.antt =====
-- Runs of a step relation.
module _ {ℓ κ} {A : Type ℓ} (R : A → A → Type κ) where
  pub data Reach (s : A) : A → Type (ℓ ⊔ κ) where
    here : Reach s s
    next : {t u : A} → Reach s t → R t u → Reach s u

  pub first_step : {s t u : A} → R s t → Reach t u → Reach s u
  first_step step here = next here step
  first_step step (next steps last) = next (first_step step steps) last

  pub Reach-trans : {s t u : A} → Reach s t → Reach t u → Reach s u
  Reach-trans steps here = steps
  Reach-trans steps (next more last) = next (Reach-trans steps more) last
