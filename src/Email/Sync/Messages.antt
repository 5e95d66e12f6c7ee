-- ===== src/Email/Sync/Messages.antt =====
-- What sync does with a message: processIMAPMessage of imap_sync.go and processGmailMessage of
-- gmail_sync.go in internal/email/sync. The result says whether they return no error.
use regent_backend.Base.{
  ℕ, ◌≡◌, refl, ap, ◌∙◌, inl, inr, Bool, true, false, ◌&&◌, ◌||◌, Option, none, some, List, arith,
  ◌==◌, if◌then◌else◌, Bool-cases, Option-cases,
}
use regent_backend.Email.Emails.{EmailRow, exists, conflicts, store_email, conflicts-store_email}

-- `mime.Parse`, and `AssignThread`, which answers nothing where the database fails.
pub record Mail : Type 1 where
  pub Raw : Type 0
  pub Parsed : Type 0
  pub parse : Raw → Option Parsed
  pub message_id : Parsed → ℕ
  pub subject : Parsed → List ℕ
  pub received_at : Parsed → ℕ
  pub assign_thread : List EmailRow → Parsed → (account_id : ℕ) → Option ℕ

pub record Fetched (Raw : Type 0) : Type 0 where
  pub uid : ℕ
  pub raw_body : Option Raw

module _ (m : Mail) where
  open m use {Raw, Parsed, parse, message_id, subject, received_at, assign_thread}

  -- The thread and the insert, the last steps of both; `stored` says whether the insert succeeds.
  unfoldable pub thread_and_store :
      (stored : Bool) → (account_id uid : ℕ) → Parsed → List EmailRow → List EmailRow × Bool
  thread_and_store stored account_id uid parsed emails =
      elim (assign_thread emails parsed account_id) [
        | none ↦ (emails, false)
        | some thread_id ↦
            (let row : EmailRow = record {
              account_id = account_id;
              uid = uid;
              message_id = message_id parsed;
              thread_id = thread_id;
              subject = subject parsed;
              received_at = received_at parsed;
            } in
              if stored then (store_email row emails, true) else (emails, false))
      ]

  unfoldable pub process_parsed_imap :
      (stored : Bool) → (account_id uid : ℕ) → Parsed → List EmailRow → List EmailRow × Bool
  process_parsed_imap stored account_id uid parsed emails =
      if message_id parsed == 0
      then (emails, true)
      else thread_and_store stored account_id uid parsed emails

  unfoldable pub parse_body : Option Raw → Option Parsed
  parse_body none = none
  parse_body (some raw) = parse raw

  unfoldable pub process_imap_message :
      (stored : Bool) → (account_id : ℕ) → Fetched Raw → List EmailRow → List EmailRow × Bool
  process_imap_message stored account_id message emails = elim (parse_body message.raw_body) [
    | none ↦ (emails, false)
    | some parsed ↦ process_parsed_imap stored account_id message.uid parsed emails
  ]

  -- `checked` says whether the query of `Exists` succeeds; the UID of a Gmail message is 0.
  unfoldable pub process_parsed_gmail :
      (checked stored : Bool) → (account_id : ℕ) → Parsed → List EmailRow → List EmailRow × Bool
  process_parsed_gmail checked stored account_id parsed emails =
      if message_id parsed == 0
      then (emails, true)
      else (if checked
          then (if exists account_id (message_id parsed) emails
              then (emails, true)
              else thread_and_store stored account_id 0 parsed emails)
          else (emails, false))

  unfoldable pub process_gmail_message :
      (checked stored : Bool) → (account_id : ℕ) → Option Raw → List EmailRow → List EmailRow × Bool
  process_gmail_message checked stored account_id raw emails = elim (parse_body raw) [
    | none ↦ (emails, false)
    | some parsed ↦ process_parsed_gmail checked stored account_id parsed emails
  ]

  -- The rows after `thread_and_store`: those before it, or one more with the UID.
  pub thread_and_store-rows :
      (stored : Bool) (account_id uid : ℕ) (parsed : Parsed) (emails : List EmailRow) (a u : ℕ)
      → (account_id == a && uid == u) ≡ false
      → conflicts a u (thread_and_store stored account_id uid parsed emails).0
        ≡ conflicts a u emails
  unfolding thread_and_store
  thread_and_store-rows stored account_id uid parsed emails a u other =
      elim (Option-cases (assign_thread emails parsed account_id)) [
        | inl h ↦ rw (thread_and_store, h) refl
        | inr (t, h) ↦
            rw (thread_and_store, h)
              (elim (Bool-cases stored) [
                | inl ok ↦
                    rw ok (
                      conflicts-store_email a u _ emails
                      ∙ ap (λ b. b || conflicts a u emails) other)
                | inr bad ↦ rw bad refl
              ])
      ]

  pub process_imap_message-rows :
      (stored : Bool) (account_id : ℕ) (message : Fetched Raw) (emails : List EmailRow) (a u : ℕ)
      → (account_id == a && message.uid == u) ≡ false
      → conflicts a u (process_imap_message stored account_id message emails).0
        ≡ conflicts a u emails
  unfolding process_imap_message process_parsed_imap
  process_imap_message-rows stored account_id message emails a u other =
      elim (Option-cases (parse_body message.raw_body)) [
        | inl h ↦ rw (process_imap_message, h) refl
        | inr (parsed, h) ↦
            rw (process_imap_message, h)
              (elim (Bool-cases (message_id parsed == 0)) [
                | inl empty ↦ rw empty refl
                | inr named ↦
                    rw named
                      (thread_and_store-rows stored account_id message.uid parsed emails a u other)
              ])
      ]

  -- With a row of the UID in the table, the insert of another adds nothing.
  thread_and_store-taken :
      (stored : Bool) (account_id uid : ℕ) (parsed : Parsed) (emails : List EmailRow)
      → conflicts account_id uid emails ≡ true
      → (thread_and_store stored account_id uid parsed emails).0 ≡ emails
  unfolding thread_and_store store_email
  thread_and_store-taken stored account_id uid parsed emails taken =
      elim (Option-cases (assign_thread emails parsed account_id)) [
        | inl h ↦ rw (thread_and_store, h) refl
        | inr (t, h) ↦ rw (thread_and_store, h, taken) (ground arith)
      ]

  pub process_gmail_message-taken :
      (checked stored : Bool) (account_id : ℕ) (raw : Option Raw) (emails : List EmailRow)
      → conflicts account_id 0 emails ≡ true
      → (process_gmail_message checked stored account_id raw emails).0 ≡ emails
  unfolding process_gmail_message process_parsed_gmail
  process_gmail_message-taken checked stored account_id raw emails taken =
      elim (Option-cases (parse_body raw)) [
        | inl h ↦ rw (process_gmail_message, h) refl
        | inr (parsed, h) ↦
            rw (process_gmail_message, h)
              (ground (arith, thread_and_store-taken stored account_id 0 parsed emails taken))
      ]
