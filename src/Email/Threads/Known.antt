-- ===== src/Email/Threads/Known.antt =====
-- A thread is one of the account's own, or new.
use regent_backend.Base.{
  if_each, if_true, if_false, ℕ, ◌≤◌, ◌≡◌, refl, sym, ◌∙◌, subst, ◌⊎◌, inl, inr, Bool, true, ◌&&◌,
  Option, none, some, List, [], ◌∷◌, arith, ltb, ◌==◌, Bool-cases, or_else, count,
}
use regent_backend.Email.Emails.{EmailRow}
use regent_backend.Email.Sync.Imap.Answers.{Threads}
use regent_backend.Email.Threads.{
  ParsedEmail, Queries, is_threaded, thread_of, query_thread, by_reply, by_references, has_subject,
  newer, newest, thread_id_of, by_subject, known_thread, assign_thread, threaded_mail,
}

-- A row of the account has the thread.
abbrev pub InAccount : (account_id : ℕ) → List EmailRow → ℕ → Type 0
InAccount account_id emails t =
    1 ≤ count (λ r. r.account_id == account_id && r.thread_id == t) emails

-- If there is a thread, a row of the account has it.
Known : (account_id : ℕ) → List EmailRow → Option ℕ → Type 0
Known account_id emails none = Unit
Known account_id emails (some t) = InAccount account_id emails t

module _ (account_id : ℕ) where
  Known-rest :
      (r : EmailRow) (rest : List EmailRow) (o : Option ℕ)
      → Known account_id rest o
      → Known account_id (r ∷ rest) o
  unfolding Known
  Known-rest r rest none h = tt
  Known-rest r rest (some t) h = omega (arith, h)

  thread_of-Known :
      (message_id : ℕ) (emails : List EmailRow)
      → Known account_id emails (thread_of account_id message_id emails)
  unfolding thread_of Known
  thread_of-Known message_id [] = tt
  thread_of-Known message_id (r ∷ rest) =
      let more = Known-rest r rest _ (thread_of-Known message_id rest) in
      elim (Bool-cases
        (r.account_id == account_id && r.message_id == message_id && is_threaded r)) [
          | inl found ↦ if_true (Known account_id (r ∷ rest)) _ _ _ found (ground (arith, found))
          | inr other ↦ if_false (Known account_id (r ∷ rest)) _ _ _ other more
        ]

  query_thread-Known :
      (q : Queries) (message_id : ℕ) (emails : List EmailRow)
      → Known account_id emails (query_thread q account_id message_id emails)
  unfolding query_thread Known
  query_thread-Known q message_id emails =
      if_each (Known account_id emails) (q.message_read message_id) _ none
        (thread_of-Known message_id emails) tt

  either-Known :
      (emails : List EmailRow) (first second : Option ℕ)
      → Known account_id emails first
      → Known account_id emails second
      → Known account_id emails (or_else first second)
  either-Known emails none second h k = k
  either-Known emails (some t) second h k = h

  by_reply-Known :
      (q : Queries) (in_reply_to : ℕ) (emails : List EmailRow)
      → Known account_id emails (by_reply q account_id in_reply_to emails)
  unfolding by_reply Known
  by_reply-Known q in_reply_to emails =
      if_each (Known account_id emails) (in_reply_to == 0) none _ tt
        (query_thread-Known q in_reply_to emails)

  by_references-Known :
      (q : Queries) (references : List ℕ) (emails : List EmailRow)
      → Known account_id emails (by_references q account_id references emails)
  unfolding by_references Known
  by_references-Known q [] emails = tt
  by_references-Known q (r ∷ rest) emails =
      either-Known emails _ _ (by_references-Known q rest emails) (query_thread-Known q r emails)

  newer-Known :
      (emails : List EmailRow) (r : EmailRow) (best : Option EmailRow)
      → Known account_id emails (some r.thread_id)
      → Known account_id emails (thread_id_of best)
      → Known account_id emails (thread_id_of (newer r best))
  unfolding newer thread_id_of
  newer-Known emails r none h k = h
  newer-Known emails r (some b) h k =
      if_each (λ o. Known account_id emails (thread_id_of o)) (ltb r.received_at b.received_at)
        (some b) (some r) k h

  newest-Known :
      (wanted : EmailRow → Bool) (emails : List EmailRow)
      → ((r : EmailRow) → wanted r ≡ true → (r.account_id == account_id) ≡ true)
      → Known account_id emails (thread_id_of (newest wanted emails))
  unfolding newest thread_id_of Known
  newest-Known wanted [] own = tt
  newest-Known wanted (r ∷ rest) own =
      let more = Known-rest r rest _ (newest-Known wanted rest own) in
      elim (Bool-cases (wanted r)) [
        | inl chosen ↦
            (let mine : (r.account_id == account_id) ≡ true = own r chosen in
              if_true (λ o. Known account_id (r ∷ rest) (thread_id_of o)) (wanted r) _ _ chosen
                (newer-Known (r ∷ rest) r (newest wanted rest) (ground (arith, mine)) more))
        | inr other ↦
            if_false (λ o. Known account_id (r ∷ rest) (thread_id_of o)) (wanted r) _ _ other more
      ]

  by_subject-Known :
      (q : Queries) (parsed : ParsedEmail) (emails : List EmailRow)
      → Known account_id emails (by_subject q account_id parsed emails)
  unfolding by_subject has_subject Known
  by_subject-Known q parsed emails =
      if_each (Known account_id emails) _ _ none (newest-Known _ emails (λ r h. ground (arith, h)))
        tt

  known_thread-Known :
      (q : Queries) (parsed : ParsedEmail) (emails : List EmailRow)
      → Known account_id emails (known_thread q account_id parsed emails)
  unfolding known_thread
  known_thread-Known q parsed emails =
      either-Known emails _ _ (by_reply-Known q parsed.in_reply_to emails) (
        either-Known emails _ _ (by_references-Known q parsed.references emails)
          (by_subject-Known q parsed emails))

  new_or_Known :
      (emails : List EmailRow) (fresh t : ℕ) (o : Option ℕ)
      → Known account_id emails o
      → or_else o (some fresh) ≡ some t
      → (t ≡ fresh) ⊎ InAccount account_id emails t
  unfolding Known
  new_or_Known emails fresh t none h e = inl (cc (e))
  new_or_Known emails fresh t (some u) h e =
      let same : u ≡ t = cc (e) in inr (subst (InAccount account_id emails) same h)

has_thread : (o : Option ℕ) (fresh : ℕ) → (t : ℕ) × (or_else o (some fresh) ≡ some t)
has_thread none fresh = (fresh, refl)
has_thread (some t) fresh = (t, refl)

-- Whichever queries succeed, an email gets the new thread, or one that a row of its own account has;
-- never a thread of another account only.
pub assign_thread-InAccount :
    (q : Queries) (fresh : ℕ) (emails : List EmailRow) (parsed : ParsedEmail) (account_id t : ℕ)
    → assign_thread q fresh emails parsed account_id ≡ some t
    → (t ≡ fresh) ⊎ InAccount account_id emails t
unfolding assign_thread
assign_thread-InAccount q fresh emails parsed account_id t e =
    let known = known_thread-Known account_id q parsed emails in
    elim (Bool-cases q.connected) [
      | inl there ↦
          new_or_Known account_id emails fresh t (known_thread q account_id parsed emails) known (
            sym (
              if_true (λ o. o ≡ or_else (known_thread q account_id parsed emails) (some fresh))
                q.connected _ none there refl)
            ∙ e)
      | inr gone ↦ cc (
          sym (
            if_false (λ o. o ≡ none) q.connected
              (or_else (known_thread q account_id parsed emails) (some fresh)) none gone refl)
          ∙ e)
    ]

-- With a connection, threading does not fail, as a complete sync asks of the interface.
pub threaded_mail-Threads :
    (Raw : Type 0) (parse : Raw → Option ParsedEmail) (q : Queries) (fresh : ParsedEmail → ℕ)
    → q.connected ≡ true
    → Threads (threaded_mail Raw parse q fresh)
unfolding threaded_mail assign_thread
threaded_mail-Threads Raw parse q fresh there emails p account_id =
    let (t, e) = has_thread (known_thread q account_id p emails) (fresh p) in
    (t, if_true (λ o. o ≡ some t) q.connected _ none there e)
