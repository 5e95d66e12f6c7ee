-- ===== src/Email/Sync/Imap/Complete.antt =====
-- A sync in which nothing fails stores what is above the cursor.
use regent_backend.Base.{
  if_true, if_false, if_each, ℕ, suc, ◌^◌, ◌≤◌, ◌<◌, ◌≡◌, refl, sym, subst, ◌⊎◌, inl, inr, Bool,
  true, false, ◌&&◌, not, Option, none, some, List, [], ◌∷◌, arith, ltb, ◌==◌, Bool-cases, length,
}
use regent_backend.Email.Emails.{conflicts}
use regent_backend.Email.Sync.Cursor.{
  SyncError, Store, active, complete, mark_completed, mark_started,
}
use regent_backend.Email.Sync.Messages.{Mail}
use regent_backend.Email.Sync.Imap.Uids.{filter_above_uid, sort_uids, batches}
use regent_backend.Email.Sync.Imap.{
  ImapCalls, Batch, save_uid, save_batch, process_batch, imap_loop, imap_new, imap_from, imap_found,
  imap_sync,
}
use regent_backend.Email.Sync.Imap.Times.{
  times, times_in, times-sort_uids, times_in-batches, times-filter_above_uid, times-length,
}
use regent_backend.Email.Sync.Imap.Answers.{Answered, Threads, process_batch-stores}

module _ (m : Mail) where
  open m use {Raw}

  -- A sync that ended well and has the row.
  Well : (account_id uid : ℕ) → Store × Option SyncError → Type 0
  Well account_id uid o =
      (o.1 ≡ none) × (o.0.cursor.sync_state ≡ active) × (conflicts account_id uid o.0.emails ≡ true)

  complete-Well :
      (account_id uid : ℕ) (written : Bool) (s : Store)
      → written ≡ true
      → conflicts account_id uid s.emails ≡ true
      → Well account_id uid (complete written s)
  unfolding complete mark_completed Well
  complete-Well account_id uid true s e h = (refl, refl, h)
  complete-Well account_id uid false s e h = cc (e)

  batch_or_left :
      (calls : ImapCalls Raw) (uids : List ℕ) (account_id uid n synced : ℕ) (group : List ℕ)
      (rest : List (List ℕ)) (s : Store)
      → Answered m calls uids
      → Threads m
      → (conflicts account_id uid s.emails ≡ true) ⊎ (1 ≤ times_in uid (group ∷ rest))
      → (conflicts account_id uid
            (process_batch m calls.stored account_id
              (calls.fetch_at n group).0
              (record { emails = s.emails; synced = synced; max_uid = 0 })).emails
          ≡ true)
        ⊎ (1 ≤ times_in uid rest)
  batch_or_left calls uids account_id uid n synced group rest s ans threads (inl h) = inl (
      process_batch-stores m calls.stored account_id uid (calls.fetch_at n group).0 _ ans.stored
        threads (ans.readable n group) (inl h))
  batch_or_left calls uids account_id uid n synced group rest s ans threads (inr h) =
      elim (Bool-cases (ltb 0 (times uid group))) [
        | inl in_group ↦ inl (
            process_batch-stores m calls.stored account_id uid (calls.fetch_at n group).0 _
              ans.stored threads (ans.readable n group)
              (inr (ground (arith, in_group, ans.whole n group uid))))
        | inr later ↦ inr (ground (arith, h, later))
      ]

  saved_left :
      (first second : Bool) (total : ℕ) (b : Batch) (s : Store) (account_id uid : ℕ) {Q : Type 0}
      → (conflicts account_id uid b.emails ≡ true) ⊎ Q
      → (conflicts account_id uid (save_batch first second total b s).emails ≡ true) ⊎ Q
  unfolding save_batch save_uid
  saved_left first second total b s account_id uid (inl h) =
      inl (
        if_each (λ (t : Store). conflicts account_id uid t.emails ≡ true) (ltb 0 b.max_uid) _ _ h h)
  saved_left first second total b s account_id uid (inr q) = inr q

  imap_loop-Well :
      (calls : ImapCalls Raw) (uids : List ℕ) (account_id uid total n synced : ℕ)
      (groups : List (List ℕ)) (s : Store)
      → Answered m calls uids
      → Threads m
      → (conflicts account_id uid s.emails ≡ true) ⊎ (1 ≤ times_in uid groups)
      → Well account_id uid (imap_loop m calls account_id total n synced groups s)
  unfolding imap_loop
  imap_loop-Well calls uids account_id uid total n synced [] s ans threads (inl h) =
      complete-Well account_id uid calls.completion_written s ans.completion_written h
  imap_loop-Well calls uids account_id uid total n synced [] s ans threads (inr h) =
      absurd (omega (arith, h))
  imap_loop-Well calls uids account_id uid total n synced (group ∷ rest) s ans threads h =
      let answer = calls.fetch_at n group in
      let not_failed : (not answer.1 && length answer.0 == 0) ≡ false =
        ground (arith, ans.fetched n group) in
      let before : Batch = record { emails = s.emails; synced = synced; max_uid = 0 } in
      let b = process_batch m calls.stored account_id answer.0 before in
      let left : (conflicts account_id uid b.emails ≡ true) ⊎ (1 ≤ times_in uid rest) =
        batch_or_left calls uids account_id uid n synced group rest s ans threads h in
      if_false (Well account_id uid) (calls.cancelled_at n) _ _ (ans.goes_on n) (
        if_false (Well account_id uid) (not answer.1 && length answer.0 == 0) _ _ not_failed (
          imap_loop-Well calls uids account_id uid total (suc n) b.synced rest
            (save_batch (calls.last_uid_written n) (calls.progress_written n) total b s) ans threads
            (saved_left (calls.last_uid_written n) (calls.progress_written n) total b s account_id
              uid left)))

  imap_from-Well :
      (calls : ImapCalls Raw) (uids : List ℕ) (account_id last uid : ℕ) (s : Store)
      → Answered m calls uids
      → Threads m
      → last < 2 ^ 32
      → last < uid
      → 1 ≤ times uid uids
      → Well account_id uid (imap_from m (some last) calls account_id uids s)
  unfolding imap_from imap_new
  imap_from-Well calls uids account_id last uid s ans threads fits lt listed =
      let above = filter_above_uid last uids in
      let fresh = sort_uids above in
      let total = length fresh in
      let among : 1 ≤ times uid fresh =
        omega (
          arith,
          times-sort_uids uid above,
          times-filter_above_uid last uid uids lt fits,
          listed,
        ) in
      let some_left : (total == 0) ≡ false = ground (arith, among, times-length uid fresh) in
      let in_groups : 1 ≤ times_in uid (batches total fresh) =
        omega (arith, among, times_in-batches uid total fresh (omega arith)) in
      if_false (Well account_id uid) (total == 0) _ _ some_left (
        if_true (Well account_id uid) calls.start_written _ _ ans.start_written (
          imap_loop-Well calls uids account_id uid total 0 0 (batches total fresh)
            (record s { cursor = mark_started total s.cursor }) ans threads (inr in_groups)))

  -- A sync of an account that has a last UID, in which all calls are answered: it has no error, the
  -- cursor becomes active, and each UID that was found above the last one has a row.
  pub imap_sync-stores :
      (calls : ImapCalls Raw) (uids : List ℕ) (account_id last uid : ℕ) (s : Store)
      → Answered m calls uids
      → Threads m
      → s.cursor.last_uid ≡ some last
      → last < 2 ^ 32
      → last < uid
      → 1 ≤ times uid uids
      → ((imap_sync m calls account_id s).1 ≡ none)
        × ((imap_sync m calls account_id s).0.cursor.sync_state ≡ active)
        × (conflicts account_id uid (imap_sync m calls account_id s).0.emails ≡ true)
  unfolding imap_sync imap_found Well
  imap_sync-stores calls uids account_id last uid s ans threads e fits lt listed =
      let Ends : Store × Option SyncError → Type 0 = Well account_id uid in
      let nonempty : (length uids == 0) ≡ false = ground (arith, listed, times-length uid uids) in
      let from : Ends (imap_from m s.cursor.last_uid calls account_id uids s) =
        subst (λ o. Ends (imap_from m o calls account_id uids s)) (sym e)
          (imap_from-Well calls uids account_id last uid s ans threads fits lt listed) in
      let found : Ends (imap_found m (some uids) calls account_id s) =
        if_false Ends (length uids == 0) _ _ nonempty
          (if_true Ends calls.cursor_read _ _ ans.cursor_read from) in
      if_true Ends calls.selected _ _ ans.selected
        (subst (λ o. Ends (imap_found m o calls account_id s)) (sym ans.found) found)
