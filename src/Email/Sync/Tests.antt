-- ===== src/Email/Sync/Tests.antt =====
-- Syncs over a toy mail service whose messages are their Message-IDs.
use regent_backend.Base.{
  ℕ, ◌+◌, ◌<◌, ◌≤◌, ◌^◌, ◌≡◌, refl, subst, true, false, ◌==◌, none, some, List, [], ◌∷◌, map, count,
  All, arith,
}
use regent_backend.Email.Emails.{EmailRow, conflicts}
use regent_backend.Email.Sync.Cursor.{new_cursor, Store, active}
use regent_backend.Email.Sync.Messages.{Mail, Fetched, parse_body}
use regent_backend.Email.Sync.Imap.{ImapCalls, imap_sync}
use regent_backend.Email.Sync.Imap.Moves.{Forward}
use regent_backend.Email.Sync.Imap.Times.{times}
use regent_backend.Email.Sync.Imap.Answers.{Readable, Answered}
use regent_backend.Email.Sync.Imap.Complete.{imap_sync-stores}
use regent_backend.Email.Sync.Imap.Forward.{Documented, imap_syncs, imap_syncs-Forward}
use regent_backend.Email.Sync.Gmail.{GmailCalls, gmail_sync}
use regent_backend.Email.Sync.Gmail.Stuck.{gmail_sync-taken}
use regent_backend.Email.Sync.Engine.{
  sync_account, record_error, update_account_sync_status, after_sync, engine_sync, with_cursor,
  get_or_create_cursor, saved, same_provider, route, polled, provider_name, AccountCalls,
  AccountState, idle_status, error_status, gmail, poll_account,
}
use regent_backend.Email.Sync.Engine.GmailPolls.{Unsynced, poll_account-gmail}

abbrev plain : Mail
plain = record {
  Raw = ℕ;
  Parsed = ℕ;
  parse = some;
  message_id = λ p. p;
  subject = λ p. [];
  received_at = λ p. 0;
  assign_thread = λ emails p account_id. some p;
}

abbrev welcome : EmailRow
welcome = record {
  account_id = 1;
  uid = 0;
  message_id = 5;
  thread_id = 5;
  subject = [];
  received_at = 0;
}

abbrev inbox : Store
inbox = record { emails = welcome ∷ []; cursor = record new_cursor { last_uid = some 3 } }

abbrev two_messages : GmailCalls ℕ
two_messages = record {
  cursor_read = true;
  messages = some (some 5 ∷ (some 6 ∷ []));
  baseline_written = true;
  start_written = true;
  completion_written = true;
  cancelled_at = λ n. false;
  checked_at = λ n. true;
  stored_at = λ n. true;
  progress_written = λ n. true;
}

gmail_sync-taken_example : (gmail_sync plain two_messages 1 inbox).0.emails ≡ welcome ∷ []
unfolding conflicts
gmail_sync-taken_example = gmail_sync-taken plain two_messages 1 inbox refl

-- FETCH answers the first message it is asked for.
fetch_first : List ℕ → List (Fetched ℕ)
fetch_first [] = []
fetch_first (uid ∷ rest) = record { uid = uid; raw_body = some (uid + 100) } ∷ []

abbrev two_found : ImapCalls ℕ
two_found = record {
  selected = true;
  found = some (7 ∷ (4 ∷ []));
  cursor_read = true;
  baseline_written = true;
  start_written = true;
  completion_written = true;
  cancelled_at = λ n. false;
  fetch_at = λ n uids. (fetch_first uids, true);
  stored = λ uid. true;
  last_uid_written = λ n. true;
  progress_written = λ n. true;
}

fetch_first_asked : (uids : List ℕ) → All (λ f. 1 ≤ count (λ v. v == f.uid) uids) (fetch_first uids)
unfolding fetch_first
fetch_first_asked [] = tt
fetch_first_asked (uid ∷ rest) = (ground arith, tt)

two_found-Documented : Documented two_found
two_found-Documented = record {
  fits = λ uids h.
      (let same : 7 ∷ (4 ∷ []) ≡ uids = cc (h) in
        subst (All (λ uid. uid < 2 ^ 32)) same (omega arith, (omega arith, tt)));
  asked = λ n uids. fetch_first_asked uids;
}

-- The second sync has the message 7 to fetch: the first one stored 4.
imap_syncs-Forward_example :
    Forward 1 3 inbox (imap_syncs plain (two_found ∷ (two_found ∷ [])) 1 inbox)
unfolding new_cursor
imap_syncs-Forward_example =
    imap_syncs-Forward plain (two_found ∷ (two_found ∷ [])) 1 3 inbox
      (two_found-Documented, (two_found-Documented, tt)) refl (omega arith)

-- FETCH answers all messages it is asked for.
fetch_all : List ℕ → List (Fetched ℕ)
fetch_all uids = map (λ uid. record { uid = uid; raw_body = some (uid + 100) }) uids

abbrev all_fetched : ImapCalls ℕ
all_fetched = record two_found { fetch_at = λ n uids. (fetch_all uids, true) }

fetch_all_whole :
    (uid : ℕ) (group : List ℕ) → times uid group ≡ count (λ f. f.uid == uid) (fetch_all group)
unfolding fetch_all
fetch_all_whole uid [] = refl
fetch_all_whole uid (v ∷ rest) = omega (arith, fetch_all_whole uid rest)

fetch_all-Readable : (group : List ℕ) → All (Readable plain) (fetch_all group)
unfolding fetch_all parse_body
fetch_all-Readable [] = tt
fetch_all-Readable (v ∷ rest) = (
  record { parsed = v + 100; parses = refl; named = λ e. absurd (omega (arith, e)) },
  fetch_all-Readable rest,
)

all_fetched-Answered : Answered plain all_fetched (7 ∷ (4 ∷ []))
all_fetched-Answered = record {
  selected = refl;
  found = refl;
  cursor_read = refl;
  start_written = refl;
  completion_written = refl;
  goes_on = λ n. refl;
  fetched = λ n group. refl;
  whole = λ n group uid. fetch_all_whole uid group;
  readable = λ n group. fetch_all-Readable group;
  stored = λ uid. refl;
}

imap_sync-stores_example :
    ((imap_sync plain all_fetched 1 inbox).1 ≡ none)
    × ((imap_sync plain all_fetched 1 inbox).0.cursor.sync_state ≡ active)
    × (conflicts 1 7 (imap_sync plain all_fetched 1 inbox).0.emails ≡ true)
unfolding new_cursor
imap_sync-stores_example =
    imap_sync-stores plain all_fetched (7 ∷ (4 ∷ [])) 1 3 7 inbox all_fetched-Answered
      (λ emails p account_id. (p, refl)) refl (omega arith) (omega arith) (omega arith)

abbrev poll : AccountCalls ℕ
poll = record {
  password = true;
  dialled = true;
  logged_in = true;
  engine = record { cursor_read = true; cursor_inserted = true; error_written = true };
  client = two_found;
  status_written = true;
}

-- An account that was never synced.
abbrev unsynced : AccountState
unsynced = record { store = record { emails = []; cursors = λ q. none }; sync_status = idle_status }

poll_account-gmail_example :
    Unsynced unsynced.store (poll_account plain poll gmail 1 unsynced).store
    × ((poll_account plain poll gmail 1 unsynced).sync_status ≡ error_status)
poll_account-gmail_example = poll_account-gmail plain poll 1 unsynced

cursor_made : (poll_account plain poll gmail 1 unsynced).store.cursors gmail ≡ some new_cursor
unfolding poll_account sync_account record_error update_account_sync_status after_sync engine_sync
    with_cursor get_or_create_cursor saved same_provider route polled provider_name
cursor_made = refl
