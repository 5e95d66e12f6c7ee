-- ===== src/Email/Sync/Gmail/Stuck.antt =====
-- All Gmail messages of an account share one UID.
use regent_backend.Base.{
  if_each, ℕ, suc, ◌≡◌, refl, ap, ◌∙◌, inl, inr, true, Option, none, some, List, [], ◌∷◌, ◌==◌,
  Bool-cases, length,
}
use regent_backend.Email.Emails.{EmailRow, conflicts}
use regent_backend.Email.Sync.Messages.{Mail, process_gmail_message, process_gmail_message-taken}
use regent_backend.Email.Sync.Cursor.{SyncError, Store, complete-emails, set_baseline-emails}
use regent_backend.Email.Sync.Gmail.{GmailCalls, gmail_loop, gmail_from, gmail_listed, gmail_sync}

module _ (m : Mail) where
  open m use {Raw}

  gmail_loop-taken :
      (calls : GmailCalls Raw) (account_id total i synced : ℕ) (messages : List (Option Raw))
      (emails : List EmailRow) (s : Store)
      → s.emails ≡ emails
      → conflicts account_id 0 emails ≡ true
      → (gmail_loop m calls account_id total i synced messages s).0.emails ≡ emails
  unfolding gmail_loop
  gmail_loop-taken calls account_id total i synced [] emails s e taken =
      complete-emails calls.completion_written s ∙ e
  gmail_loop-taken calls account_id total i synced (raw ∷ rest) emails s e taken =
      let kept : (process_gmail_message m (calls.checked_at i) (calls.stored_at i) account_id raw
            s.emails).0
          ≡ emails =
        process_gmail_message-taken m (calls.checked_at i) (calls.stored_at i) account_id raw
          s.emails (ap (conflicts account_id 0) e ∙ taken)
        ∙ e in
      elim (Bool-cases (calls.cancelled_at i)) [
        | inl stop ↦ rw stop e
        | inr on ↦
            rw on
              (elim (Bool-cases
                (process_gmail_message m (calls.checked_at i) (calls.stored_at i) account_id raw
                  s.emails).1) [
                    | inl ok ↦ rw ok (
                        gmail_loop-taken calls account_id total (suc i) (suc synced) rest emails _
                          kept taken)
                    | inr bad ↦ rw bad (
                        gmail_loop-taken calls account_id total (suc i) synced rest emails _ kept
                          taken)
                  ])
      ]

  gmail_from-taken :
      (last_uid : Option ℕ) (calls : GmailCalls Raw) (account_id : ℕ) (messages : List (Option Raw))
      (s : Store)
      → conflicts account_id 0 s.emails ≡ true
      → (gmail_from m last_uid calls account_id messages s).0.emails ≡ s.emails
  unfolding gmail_from
  gmail_from-taken none calls account_id messages s taken =
      set_baseline-emails calls.baseline_written calls.completion_written (length messages) s
  gmail_from-taken (some uid) calls account_id messages s taken =
      let loop =
        gmail_loop-taken calls account_id (length messages) 0 0 messages s.emails _ refl taken in
      if_each (λ (o : Store × Option SyncError). o.0.emails ≡ s.emails) calls.start_written _ _ loop
        refl

  gmail_listed-taken :
      (listed : Option (List (Option Raw))) (calls : GmailCalls Raw) (account_id : ℕ) (s : Store)
      → conflicts account_id 0 s.emails ≡ true
      → (gmail_listed m listed calls account_id s).0.emails ≡ s.emails
  unfolding gmail_listed
  gmail_listed-taken none calls account_id s taken = refl
  gmail_listed-taken (some messages) calls account_id s taken =
      elim (Bool-cases (length messages == 0)) [
        | inl empty ↦ rw empty (complete-emails calls.completion_written s)
        | inr some_listed ↦
            rw some_listed (gmail_from-taken s.cursor.last_uid calls account_id messages s taken)
      ]

  -- Once the table has one Gmail message of an account, which has the UID 0, no sync of the account
  -- stores another, whatever Gmail lists and whatever the state of the cursor.
  pub gmail_sync-taken :
      (calls : GmailCalls Raw) (account_id : ℕ) (s : Store)
      → conflicts account_id 0 s.emails ≡ true
      → (gmail_sync m calls account_id s).0.emails ≡ s.emails
  unfolding gmail_sync
  gmail_sync-taken calls account_id s taken =
      let rest = gmail_listed-taken calls.messages calls account_id s taken in
      if_each (λ (o : Store × Option SyncError). o.0.emails ≡ s.emails) calls.cursor_read _ _ rest
        refl
