-- ===== src/Email/Emails.antt =====
-- The emails table as DedupService of internal/email/dedup.go uses it: `Exists`, and the insert of
-- `StoreEmail`, which does nothing where the account has a row with the UID. A Message-ID is a number,
-- and 0 is the empty text. A thread is a number, and 0 stands for NULL.
use regent_backend.Base.{
  ℕ, ◌≡◌, refl, subst, inl, inr, Bool, true, false, ◌&&◌, ◌||◌, List, [], ◌∷◌, arith, ◌==◌,
  if◌then◌else◌, Bool-cases,
}

pub record EmailRow : Type 0 where
  pub account_id : ℕ
  pub uid : ℕ
  pub message_id : ℕ
  pub thread_id : ℕ
  pub subject : List ℕ
  pub received_at : ℕ

unfoldable pub exists : (account_id message_id : ℕ) → List EmailRow → Bool
exists account_id message_id [] = false
exists account_id message_id (r ∷ rest) =
    r.account_id == account_id && r.message_id == message_id || exists account_id message_id rest

-- The conflict target (account_id, uid).
unfoldable pub conflicts : (account_id uid : ℕ) → List EmailRow → Bool
conflicts account_id uid [] = false
conflicts account_id uid (r ∷ rest) =
    r.account_id == account_id && r.uid == uid || conflicts account_id uid rest

unfoldable pub store_email : EmailRow → List EmailRow → List EmailRow
store_email row emails = if conflicts row.account_id row.uid emails then emails else row ∷ emails

-- What the insert leaves of the UIDs that are there.
pub conflicts-store_email :
    (account_id uid : ℕ) (row : EmailRow) (emails : List EmailRow)
    → conflicts account_id uid (store_email row emails)
      ≡ (row.account_id == account_id && row.uid == uid || conflicts account_id uid emails)
unfolding store_email conflicts
conflicts-store_email account_id uid row emails =
    elim (Bool-cases (conflicts row.account_id row.uid emails)) [
      | inl taken ↦ rw taken (elim (Bool-cases (row.account_id == account_id && row.uid == uid)) [
        | inl same ↦
            (let a : row.account_id ≡ account_id = ground (arith, same) in
              let u : row.uid ≡ uid = ground (arith, same) in
              let there : conflicts account_id uid emails ≡ true =
                subst (λ v. conflicts account_id v emails ≡ true) u
                  (subst (λ b. conflicts b row.uid emails ≡ true) a taken) in
              ground (arith, there))
        | inr other ↦ rw other refl
      ])
      | inr free ↦ rw free refl
    ]

pub store_email-conflicts :
    (row : EmailRow) (emails : List EmailRow)
    → conflicts row.account_id row.uid (store_email row emails) ≡ true
store_email-conflicts row emails =
    ground (arith, conflicts-store_email row.account_id row.uid row emails)
