-- ===== src/Email/Threads.antt =====
-- `AssignThread` of internal/email/threading.go: the three ways to find the thread of an email, over
-- the rows of its account. A Message-ID is a number and 0 the empty text; times are in seconds, and
-- seven days are 604800 of them. A query that fails is taken for one without a row, as in the source.
pub mod Known
mod Tests
use regent_backend.Base.{
  if_each, if_true, if_false, ℕ, zero, suc, ◌+◌, ◌-◌, ◌*◌, ◌/◌, ◌%◌, ◌≤◌, ◌<◌, min, max, ◌≡◌, refl,
  sym, ap, ◌∙◌, subst, ◌≢◌, ◌↔◌, ◌⊎◌, inl, inr, Bool, true, false, ◌&&◌, ◌||◌, not, Option, none,
  some, List, [], ◌∷◌, ◌++◌, map, arith, ltb, leb, ◌==◌, if◌then◌else◌, Bool-cases, Option-cases,
  All, All-append, length, ltb→lt, lt→ltb, leb→le, ==_iff, or_else, get_elem?, take, drop,
  length-take, length-append, count, count-append, count-split, count-filter, count-filter_one,
  count_mono, filter,
}
use regent_backend.Email.Emails.{EmailRow}
use regent_backend.Email.Sync.Messages.{Mail}
use regent_backend.Email.Subjects.{normalize_subject, stored_subject, is_empty}

pub record ParsedEmail : Type 0 where
  pub message_id : ℕ
  pub in_reply_to : ℕ
  pub references : List ℕ
  pub subject : List ℕ
  pub received_at : ℕ

-- Whether the connection is there, and which queries succeed: by the Message-ID they ask for.
pub record Queries : Type 0 where
  pub connected : Bool
  pub message_read : ℕ → Bool
  pub subject_read : Bool

unfoldable pub same_text : List ℕ → List ℕ → Bool
same_text [] [] = true
same_text [] (d ∷ more) = false
same_text (c ∷ rest) [] = false
same_text (c ∷ rest) (d ∷ more) = c == d && same_text rest more

-- `thread_id IS NOT NULL`.
unfoldable pub is_threaded : EmailRow → Bool
is_threaded r = not (r.thread_id == 0)

-- SELECT thread_id … WHERE account_id = $1 AND message_id = $2 AND thread_id IS NOT NULL LIMIT 1.
unfoldable pub thread_of : (account_id message_id : ℕ) → List EmailRow → Option ℕ
unfolding is_threaded
thread_of account_id message_id [] = none
thread_of account_id message_id (r ∷ rest) =
    let found = thread_of account_id message_id rest in
    if r.account_id == account_id && r.message_id == message_id && is_threaded r
    then some r.thread_id
    else found

unfoldable pub query_thread : Queries → (account_id message_id : ℕ) → List EmailRow → Option ℕ
query_thread q account_id message_id emails =
    if q.message_read message_id then thread_of account_id message_id emails else none

unfoldable pub by_reply : Queries → (account_id in_reply_to : ℕ) → List EmailRow → Option ℕ
by_reply q account_id in_reply_to emails =
    if in_reply_to == 0 then none else query_thread q account_id in_reply_to emails

-- The last reference comes first.
unfoldable pub by_references : Queries → (account_id : ℕ) → List ℕ → List EmailRow → Option ℕ
by_references q account_id [] emails = none
by_references q account_id (r ∷ rest) emails =
    or_else (by_references q account_id rest emails) (query_thread q account_id r emails)

-- The rows of the third query, and the newest of them.
unfoldable pub has_subject : (account_id cutoff : ℕ) → List ℕ → EmailRow → Bool
has_subject account_id cutoff normalized r =
    r.account_id == account_id
    && is_threaded r
    && ltb cutoff r.received_at
    && same_text (stored_subject r.subject) normalized

unfoldable pub newer : EmailRow → Option EmailRow → Option EmailRow
newer r none = some r
newer r (some best) = if ltb r.received_at best.received_at then some best else some r

unfoldable pub newest : (EmailRow → Bool) → List EmailRow → Option EmailRow
newest wanted [] = none
newest wanted (r ∷ rest) = let best = newest wanted rest in if wanted r then newer r best else best

unfoldable pub thread_id_of : Option EmailRow → Option ℕ
thread_id_of none = none
thread_id_of (some r) = some r.thread_id

unfoldable pub by_subject : Queries → (account_id : ℕ) → ParsedEmail → List EmailRow → Option ℕ
by_subject q account_id parsed emails =
    let normalized = normalize_subject parsed.subject in
    let cutoff = parsed.received_at - 604_800 in
    if not (is_empty normalized) && q.subject_read
    then thread_id_of (newest (has_subject account_id cutoff normalized) emails)
    else none

unfoldable pub known_thread : Queries → (account_id : ℕ) → ParsedEmail → List EmailRow → Option ℕ
known_thread q account_id parsed emails =
    or_else (by_reply q account_id parsed.in_reply_to emails) (
      or_else (by_references q account_id parsed.references emails)
        (by_subject q account_id parsed emails))

-- `fresh` is the new UUID.
unfoldable pub assign_thread :
    Queries → (fresh : ℕ) → List EmailRow → ParsedEmail → (account_id : ℕ) → Option ℕ
assign_thread q fresh emails parsed account_id =
    if q.connected then or_else (known_thread q account_id parsed emails) (some fresh) else none

-- The mail interface of a sync, with these threads; each email has its own new UUID.
unfoldable pub threaded_mail :
    (Raw : Type 0) → (Raw → Option ParsedEmail) → Queries → (ParsedEmail → ℕ) → Mail
threaded_mail Raw parse q fresh = record {
  Raw = Raw;
  Parsed = ParsedEmail;
  parse = parse;
  message_id = λ p. p.message_id;
  subject = λ p. p.subject;
  received_at = λ p. p.received_at;
  assign_thread = λ emails p account_id. assign_thread q (fresh p) emails p account_id;
}
