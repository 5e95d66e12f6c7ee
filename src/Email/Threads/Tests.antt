-- ===== src/Email/Threads/Tests.antt =====
-- A reply whose parent is stored, among rows of two accounts.
use regent_backend.Base.{ℕ, ◌≡◌, refl, ◌⊎◌, true, some, [], ◌∷◌, codes}
use regent_backend.Email.Emails.{EmailRow}
use regent_backend.Email.Threads.{
  ParsedEmail, Queries, thread_of, query_thread, by_reply, known_thread, assign_thread,
}
use regent_backend.Email.Threads.Known.{InAccount, assign_thread-InAccount}

abbrev all_read : Queries
all_read = record { connected = true; message_read = λ id. true; subject_read = true }

abbrev parent : EmailRow
parent = record {
  account_id = 1;
  uid = 4;
  message_id = 70;
  thread_id = 500;
  subject = codes "Lunch";
  received_at = 9;
}

abbrev stranger : EmailRow
stranger = record parent { account_id = 2; thread_id = 600 }

abbrev reply : ParsedEmail
reply = record {
  message_id = 71;
  in_reply_to = 70;
  references = [];
  subject = codes "Re: Lunch";
  received_at = 10;
}

abbrev old_thread : ℕ
old_thread = 500

abbrev new_thread : ℕ
new_thread = 900

joins_parent :
    assign_thread all_read new_thread (stranger ∷ (parent ∷ [])) reply 1 ≡ some old_thread
unfolding assign_thread known_thread by_reply query_thread thread_of
joins_parent = refl

assign_thread-InAccount_example :
    (old_thread ≡ new_thread) ⊎ InAccount 1 (stranger ∷ (parent ∷ [])) old_thread
assign_thread-InAccount_example =
    assign_thread-InAccount all_read new_thread (stranger ∷ (parent ∷ [])) reply 1 old_thread
      joins_parent
