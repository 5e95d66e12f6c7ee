-- ===== src/Email/Sync/Imap/Answers.antt =====
-- A mail server and a database that answer all calls, and what a batch then stores.
use regent_backend.Base.{
  if_each, ℕ, ◌≤◌, ◌≡◌, sym, subst, ◌≢◌, ◌⊎◌, inl, inr, Bool, true, false, some, List, [], ◌∷◌,
  arith, ◌==◌, Bool-cases, Option-cases, All, ==_iff, count,
}
use regent_backend.Email.Emails.{EmailRow, conflicts, conflicts-store_email, store_email-conflicts}
use regent_backend.Email.Sync.Messages.{
  Mail, Fetched, parse_body, thread_and_store, process_parsed_imap, process_imap_message,
}
use regent_backend.Email.Sync.Imap.{ImapCalls, Batch, process_batch}
use regent_backend.Email.Sync.Imap.Times.{times}

module _ (m : Mail) where
  open m use {Raw, Parsed, message_id, subject, received_at, assign_thread}

  -- The message parses, and has a Message-ID.
  pub record Readable (f : Fetched Raw) : Type 0 where
    pub parsed : Parsed
    pub parses : parse_body m f.raw_body ≡ some parsed
    pub named : message_id parsed ≢ 0

  -- The mail server and the database answer all calls: `uids` are found, and a batch is fetched whole
  -- and readable.
  pub record Answered (calls : ImapCalls Raw) (uids : List ℕ) : Type 0 where
    pub selected : calls.selected ≡ true
    pub found : calls.found ≡ some uids
    pub cursor_read : calls.cursor_read ≡ true
    pub start_written : calls.start_written ≡ true
    pub completion_written : calls.completion_written ≡ true
    pub goes_on : (n : ℕ) → calls.cancelled_at n ≡ false
    pub fetched : (n : ℕ) (group : List ℕ) → (calls.fetch_at n group).1 ≡ true
    pub whole :
        (n : ℕ) (group : List ℕ) (uid : ℕ)
        → times uid group ≡ count (λ f. f.uid == uid) (calls.fetch_at n group).0
    pub readable : (n : ℕ) (group : List ℕ) → All Readable (calls.fetch_at n group).0
    pub stored : (uid : ℕ) → calls.stored uid ≡ true

  -- Threading does not fail.
  abbrev pub Threads : Type 0
  Threads =
      (emails : List EmailRow) (p : Parsed) (account_id : ℕ)
      → (t : ℕ) × (assign_thread emails p account_id ≡ some t)

  thread_and_store-stores :
      (account_id uid : ℕ) (p : Parsed) (emails : List EmailRow)
      → Threads
      → conflicts account_id uid (thread_and_store m true account_id uid p emails).0 ≡ true
  unfolding thread_and_store
  thread_and_store-stores account_id uid p emails threads =
      let (t, e) = threads emails p account_id in
      rw (thread_and_store, e) (store_email-conflicts _ emails)

  process_imap_message-stores :
      (account_id : ℕ) (f : Fetched Raw) (emails : List EmailRow)
      → Threads
      → Readable f
      → conflicts account_id f.uid (process_imap_message m true account_id f emails).0 ≡ true
  unfolding process_imap_message process_parsed_imap
  process_imap_message-stores account_id f emails threads r =
      let named : (message_id r.parsed == 0) ≡ false = ground (arith, r.named) in
      let there = thread_and_store-stores account_id f.uid r.parsed emails threads in
      rw (process_imap_message, r.parses) (rw named there)

  -- A row stays.
  process_imap_message-keeps :
      (stored : Bool) (account_id : ℕ) (f : Fetched Raw) (emails : List EmailRow) (uid : ℕ)
      → conflicts account_id uid emails ≡ true
      → conflicts account_id uid (process_imap_message m stored account_id f emails).0 ≡ true
  unfolding process_imap_message process_parsed_imap thread_and_store
  process_imap_message-keeps stored account_id f emails uid h =
      let Kept : List EmailRow × Bool → Type 0 = λ o. conflicts account_id uid o.0 ≡ true in
      elim (Option-cases (parse_body m f.raw_body)) [
        | inl e ↦ rw (process_imap_message, e) h
        | inr (p, e) ↦
            rw (process_imap_message, e)
              (if_each Kept (message_id p == 0) _ _ h
                (elim (Option-cases (assign_thread emails p account_id)) [
                  | inl failed ↦ rw (thread_and_store, failed) h
                  | inr (t, threaded) ↦
                      rw (thread_and_store, threaded)
                        (if_each Kept stored _ _
                          (ground (
                            arith,
                            h,
                            conflicts-store_email account_id uid
                                (record {
                                  account_id = account_id;
                                  uid = f.uid;
                                  message_id = message_id p;
                                  thread_id = t;
                                  subject = subject p;
                                  received_at = received_at p;
                                })
                                emails,
                          ))
                          h)
                ]))
      ]

  stored_or_left :
      (stored : ℕ → Bool) (account_id uid : ℕ) (f : Fetched Raw) (rest : List (Fetched Raw))
      (emails : List EmailRow)
      → stored f.uid ≡ true
      → Threads
      → Readable f
      → (conflicts account_id uid emails ≡ true) ⊎ (1 ≤ count (λ g. g.uid == uid) (f ∷ rest))
      → (conflicts account_id uid (process_imap_message m (stored f.uid) account_id f emails).0
          ≡ true)
        ⊎ (1 ≤ count (λ g. g.uid == uid) rest)
  stored_or_left stored account_id uid f rest emails ok threads r (inl h) =
      inl (process_imap_message-keeps (stored f.uid) account_id f emails uid h)
  stored_or_left stored account_id uid f rest emails ok threads r (inr h) =
      elim (Bool-cases (f.uid == uid)) [
        | inl same ↦
            (let there = process_imap_message-stores account_id f emails threads r in
              let here : conflicts account_id f.uid
                    (process_imap_message m (stored f.uid) account_id f emails).0
                  ≡ true =
                subst
                  (λ b.
                    conflicts account_id f.uid (process_imap_message m b account_id f emails).0
                    ≡ true)
                  (sym ok) there in
              inl (
                subst
                  (λ u.
                    conflicts account_id u
                      (process_imap_message m (stored f.uid) account_id f emails).0
                    ≡ true)
                  ((==_iff f.uid uid).0 same) here))
        | inr other ↦ inr (ground (arith, h, other))
      ]

  -- A row that is there, or is among what is to be read, is there afterwards.
  pub process_batch-stores :
      (stored : ℕ → Bool) (account_id uid : ℕ) (messages : List (Fetched Raw)) (b : Batch)
      → ((v : ℕ) → stored v ≡ true)
      → Threads
      → All Readable messages
      → (conflicts account_id uid b.emails ≡ true) ⊎ (1 ≤ count (λ f. f.uid == uid) messages)
      → conflicts account_id uid (process_batch m stored account_id messages b).emails ≡ true
  unfolding process_batch
  process_batch-stores stored account_id uid [] b ok threads all (inl h) = h
  process_batch-stores stored account_id uid [] b ok threads all (inr h) = absurd (omega (arith, h))
  process_batch-stores stored account_id uid (f ∷ rest) b ok threads (here, there) h =
      let after : List EmailRow = (process_imap_message m (stored f.uid) account_id f b.emails).0 in
      let left : (conflicts account_id uid after ≡ true) ⊎ (1 ≤ count (λ g. g.uid == uid) rest) =
        stored_or_left stored account_id uid f rest b.emails (ok f.uid) threads here h in
      if_each (λ (o : Batch). conflicts account_id uid o.emails ≡ true) _ _ _
        (process_batch-stores stored account_id uid rest _ ok threads there left)
        (process_batch-stores stored account_id uid rest _ ok threads there left)
