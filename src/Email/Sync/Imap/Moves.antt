-- ===== src/Email/Sync/Imap/Moves.antt =====
-- Moves of the cursor: what the writes of a sync keep.
use regent_backend.Base.{
  if_each, ℕ, ◌^◌, ◌≤◌, ◌<◌, ◌≡◌, refl, ◌∙◌, ◌⊎◌, inl, inr, Bool, true, false, some, List, arith,
  ltb, if◌then◌else◌, Bool-cases,
}
use regent_backend.Email.Emails.{EmailRow, conflicts}
use regent_backend.Email.Sync.Cursor.{
  Cursor, Store, complete, mark_completed, syncing, update_progress, update_last_uid, mark_started,
  write, percent,
}
use regent_backend.Email.Sync.Imap.Below.{Above}
use regent_backend.Email.Sync.Imap.{Batch, save_uid, save_batch}

-- From `s` to `t` the last UID did not go down from `last`, and the account's rows for the UIDs up to
-- `last` are the same.
pub record Forward (account_id last : ℕ) (s t : Store) : Type 0 where
  pub uid_after : ℕ
  pub last_uid : t.cursor.last_uid ≡ some uid_after
  pub least : last ≤ uid_after
  pub fits : uid_after < 2 ^ 32
  pub rows :
      (uid : ℕ) → uid ≤ last → conflicts account_id uid t.emails ≡ conflicts account_id uid s.emails

-- The batch so far, over the table `emails`.
pub record Grown (account_id last : ℕ) (emails : List EmailRow) (b : Batch) : Type 0 where
  pub rows :
      (uid : ℕ) → uid ≤ last → conflicts account_id uid b.emails ≡ conflicts account_id uid emails
  pub top : (b.max_uid ≡ 0) ⊎ Above last b.max_uid

pub unmoved :
    (account_id last : ℕ) (s : Store)
    → s.cursor.last_uid ≡ some last
    → last < 2 ^ 32
    → Forward account_id last s s
unmoved account_id last s e fits = record {
  uid_after = last;
  last_uid = e;
  least = omega arith;
  fits = fits;
  rows = λ uid le. refl;
}

pub higher :
    (last top uid : ℕ)
    → (top ≡ 0) ⊎ Above last top
    → Above last uid
    → ((if ltb top uid then uid else top) ≡ 0) ⊎ Above last (if ltb top uid then uid else top)
higher last top uid before above = elim (Bool-cases (ltb top uid)) [
  | inl more ↦ rw more (inr above)
  | inr less ↦ rw less before
]

pub complete-Forward :
    (account_id last : ℕ) (s t : Store) (written : Bool)
    → Forward account_id last s t
    → Forward account_id last s (complete written t).0
unfolding complete mark_completed
complete-Forward account_id last s t true h = record {
  uid_after = h.uid_after;
  last_uid = h.last_uid;
  least = h.least;
  fits = h.fits;
  rows = h.rows;
}
complete-Forward account_id last s t false h = h

save_uid-Forward :
    (account_id last : ℕ) (s t : Store) (written : Bool) (uid : ℕ)
    → Forward account_id last s t
    → (uid ≡ 0) ⊎ Above last uid
    → Forward account_id last s (save_uid written uid t)
unfolding save_uid write update_last_uid
save_uid-Forward account_id last s t written uid h (inl zero_uid) =
    let none_saved : ltb 0 uid ≡ false = ground (arith, zero_uid) in rw none_saved h
save_uid-Forward account_id last s t true uid h (inr above) =
    if_each (Forward account_id last s) (ltb 0 uid) _ _
      (record {
        uid_after = uid;
        last_uid = refl;
        least = omega (arith, above.0);
        fits = above.1;
        rows = h.rows;
      })
      h
save_uid-Forward account_id last s t false uid h (inr above) =
    if_each (Forward account_id last s) (ltb 0 uid) _ _
      (record {
        uid_after = h.uid_after;
        last_uid = h.last_uid;
        least = h.least;
        fits = h.fits;
        rows = h.rows;
      })
      h

kept_uid :
    (written : Bool) (pct synced : ℕ) (c : Cursor)
    → (write written (update_progress syncing pct synced) c).last_uid ≡ c.last_uid
unfolding write update_progress
kept_uid true pct synced c = refl
kept_uid false pct synced c = refl

pub save_batch-Forward :
    (account_id last : ℕ) (s t : Store) (first second : Bool) (total : ℕ) (b : Batch)
    → Forward account_id last s t
    → Grown account_id last t.emails b
    → Forward account_id last s (save_batch first second total b t)
unfolding save_batch write update_progress
save_batch-Forward account_id last s t first second total b h grown =
    let with_rows : Store = record t { emails = b.emails } in
    let stored : Forward account_id last s with_rows = record {
      uid_after = h.uid_after;
      last_uid = h.last_uid;
      least = h.least;
      fits = h.fits;
      rows = λ uid le. grown.rows uid le ∙ h.rows uid le;
    } in
    let saved = save_uid-Forward account_id last s with_rows first b.max_uid stored grown.top in
    record {
      uid_after = saved.uid_after;
      last_uid = kept_uid second (percent b.synced total) b.synced _ ∙ saved.last_uid;
      least = saved.least;
      fits = saved.fits;
      rows = saved.rows;
    }

pub mark_started-Forward :
    (account_id last : ℕ) (s t : Store) (total : ℕ)
    → Forward account_id last s t
    → Forward account_id last s (record t { cursor = mark_started total t.cursor })
unfolding mark_started
mark_started-Forward account_id last s t total h = record {
  uid_after = h.uid_after;
  last_uid = h.last_uid;
  least = h.least;
  fits = h.fits;
  rows = h.rows;
}
