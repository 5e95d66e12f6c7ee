-- ===== src/Email/Sync/Imap/Forward.antt =====
-- The cursor only moves forward, and what is below it is not read again.
use regent_backend.Base.{
  if_each, ℕ, suc, ◌^◌, ◌≤◌, ◌<◌, ◌≡◌, refl, sym, ◌∙◌, subst, inl, Bool, ◌&&◌, not, Option, none,
  some, List, [], ◌∷◌, arith, ◌==◌, All, length, count,
}
use regent_backend.Email.Emails.{EmailRow, conflicts}
use regent_backend.Email.Sync.Cursor.{SyncError, Store, mark_started}
use regent_backend.Email.Sync.Messages.{
  Mail, Fetched, process_imap_message, process_imap_message-rows,
}
use regent_backend.Email.Sync.Imap.Uids.{filter_above_uid, sort_uids, batches}
use regent_backend.Email.Sync.Imap.Below.{
  Above, sort_uids-All, batches-All, All-count, filter_above_uid-Above,
}
use regent_backend.Email.Sync.Imap.{
  ImapCalls, Batch, process_batch, imap_loop, imap_new, imap_from, imap_found, imap_sync,
}
use regent_backend.Email.Sync.Imap.Moves.{
  Forward, Grown, unmoved, higher, complete-Forward, mark_started-Forward, save_batch-Forward,
}

-- UIDs have 32 bits, and FETCH answers messages that were asked for.
pub record Documented {Raw : Type 0} (calls : ImapCalls Raw) : Type 0 where
  pub fits : (uids : List ℕ) → calls.found ≡ some uids → All (λ uid. uid < 2 ^ 32) uids
  pub asked :
      (n : ℕ) (uids : List ℕ)
      → All (λ f. 1 ≤ count (λ v. v == f.uid) uids) (calls.fetch_at n uids).0

module _ (m : Mail) where
  open m use {Raw}

  process_batch-Grown :
      (stored : ℕ → Bool) (account_id last : ℕ) (emails : List EmailRow)
      (messages : List (Fetched Raw)) (b : Batch)
      → All (λ f. Above last f.uid) messages
      → Grown account_id last emails b
      → Grown account_id last emails (process_batch m stored account_id messages b)
  unfolding process_batch
  process_batch-Grown stored account_id last emails [] b all h = h
  process_batch-Grown stored account_id last emails (f ∷ rest) b (here, there) h =
      let Rows : List EmailRow → Type 0 = λ e.
        (uid : ℕ) → uid ≤ last → conflicts account_id uid e ≡ conflicts account_id uid emails in
      let kept : Rows (process_imap_message m (stored f.uid) account_id f b.emails).0 = λ uid le.
        process_imap_message-rows m (stored f.uid) account_id f b.emails account_id uid
          (ground (arith, here.0, le))
        ∙ h.rows uid le in
      if_each (Grown account_id last emails) _ _ _
        (process_batch-Grown stored account_id last emails rest _ there
          (record { rows = kept; top = higher last b.max_uid f.uid h.top here }))
        (process_batch-Grown stored account_id last emails rest _ there
          (record { rows = kept; top = h.top }))

  fetched-Above :
      (last : ℕ) (uids : List ℕ) (messages : List (Fetched Raw))
      → All (Above last) uids
      → All (λ f. 1 ≤ count (λ v. v == f.uid) uids) messages
      → All (λ f. Above last f.uid) messages
  fetched-Above last uids [] all asked = tt
  fetched-Above last uids (f ∷ rest) all (here, there) =
      (All-count (Above last) f.uid uids all here, fetched-Above last uids rest all there)

  imap_loop-Forward :
      (calls : ImapCalls Raw) (account_id last total n synced : ℕ) (groups : List (List ℕ))
      (s t : Store)
      → Documented calls
      → All (All (Above last)) groups
      → Forward account_id last s t
      → Forward account_id last s (imap_loop m calls account_id total n synced groups t).0
  unfolding imap_loop
  imap_loop-Forward calls account_id last total n synced [] s t doc all h =
      complete-Forward account_id last s t calls.completion_written h
  imap_loop-Forward calls account_id last total n synced (uids ∷ rest) s t doc (here, there) h =
      let Ends : Store × Option SyncError → Type 0 = λ o. Forward account_id last s o.0 in
      let above = fetched-Above last uids (calls.fetch_at n uids).0 here (doc.asked n uids) in
      let grown =
        process_batch-Grown calls.stored account_id last t.emails (calls.fetch_at n uids).0
          (record { emails = t.emails; synced = synced; max_uid = 0 }) above
          (record { rows = λ uid le. refl; top = inl refl }) in
      let saved =
        save_batch-Forward account_id last s t (calls.last_uid_written n) (calls.progress_written n)
          total _ h grown in
      if_each Ends (calls.cancelled_at n) _ _ h (
        if_each Ends (not (calls.fetch_at n uids).1 && length (calls.fetch_at n uids).0 == 0) _ _
          (imap_loop-Forward calls account_id last total (suc n) synced rest s t doc there h)
          (imap_loop-Forward calls account_id last total (suc n) _ rest s _ doc there saved))

  imap_from-Forward :
      (calls : ImapCalls Raw) (account_id last : ℕ) (uids : List ℕ) (s : Store)
      → Documented calls
      → s.cursor.last_uid ≡ some last
      → last < 2 ^ 32
      → All (λ uid. uid < 2 ^ 32) uids
      → Forward account_id last s (imap_from m (some last) calls account_id uids s).0
  unfolding imap_from imap_new mark_started
  imap_from-Forward calls account_id last uids s doc e fits all =
      let Ends : Store × Option SyncError → Type 0 = λ o. Forward account_id last s o.0 in
      let above = sort_uids-All (Above last) _ (filter_above_uid-Above last uids fits all) in
      let fresh = sort_uids (filter_above_uid last uids) in
      let started =
        mark_started-Forward account_id last s s (length fresh)
          (unmoved account_id last s e fits) in
      if_each Ends (length fresh == 0) _ _
        (complete-Forward account_id last s s calls.completion_written
          (unmoved account_id last s e fits))
        (if_each Ends calls.start_written _ _
          (imap_loop-Forward calls account_id last (length fresh) 0 0 (batches (length fresh) fresh)
            s _ doc (batches-All (Above last) (length fresh) fresh above) started)
          (unmoved account_id last s e fits))

  imap_found-Forward :
      (found : Option (List ℕ)) (calls : ImapCalls Raw) (account_id last : ℕ) (s : Store)
      → Documented calls
      → calls.found ≡ found
      → s.cursor.last_uid ≡ some last
      → last < 2 ^ 32
      → Forward account_id last s (imap_found m found calls account_id s).0
  unfolding imap_found
  imap_found-Forward none calls account_id last s doc f e fits = unmoved account_id last s e fits
  imap_found-Forward (some uids) calls account_id last s doc f e fits =
      let Ends : Store × Option SyncError → Type 0 = λ o. Forward account_id last s o.0 in
      let stay = unmoved account_id last s e fits in
      if_each Ends (length uids == 0) _ _
        (complete-Forward account_id last s s calls.completion_written stay)
        (if_each Ends calls.cursor_read _ _
          (subst (λ o. Ends (imap_from m o calls account_id uids s)) (sym e)
            (imap_from-Forward calls account_id last uids s doc e fits (doc.fits uids f)))
          stay)

  imap_sync-Forward :
      (calls : ImapCalls Raw) (account_id last : ℕ) (s : Store)
      → Documented calls
      → s.cursor.last_uid ≡ some last
      → last < 2 ^ 32
      → Forward account_id last s (imap_sync m calls account_id s).0
  unfolding imap_sync
  imap_sync-Forward calls account_id last s doc e fits =
      let found = imap_found-Forward calls.found calls account_id last s doc refl e fits in
      if_each (λ (o : Store × Option SyncError). Forward account_id last s o.0) calls.selected _ _
        found (unmoved account_id last s e fits)

  -- Syncs of an account, one after the other.
  unfoldable pub imap_syncs : List (ImapCalls Raw) → (account_id : ℕ) → Store → Store
  imap_syncs [] account_id s = s
  imap_syncs (calls ∷ rest) account_id s =
      imap_syncs rest account_id (imap_sync m calls account_id s).0

  -- Take syncs of an account that has a last UID, in all of which UIDs have 32 bits and FETCH answers
  -- messages that were asked for. They never move the last UID back, and they leave the account's rows
  -- for the UIDs up to the first last UID as they are: a message below it that has no row, as one that
  -- could not be stored when a later one could, is never stored.
  pub imap_syncs-Forward :
      (each : List (ImapCalls Raw)) (account_id last : ℕ) (s : Store)
      → All Documented each
      → s.cursor.last_uid ≡ some last
      → last < 2 ^ 32
      → Forward account_id last s (imap_syncs each account_id s)
  unfolding imap_syncs
  imap_syncs-Forward [] account_id last s docs e fits = unmoved account_id last s e fits
  imap_syncs-Forward (calls ∷ rest) account_id last s (doc, docs) e fits =
      let one = imap_sync-Forward calls account_id last s doc e fits in
      let more =
        imap_syncs-Forward rest account_id one.uid_after (imap_sync m calls account_id s).0 docs
          one.last_uid one.fits in
      record {
        uid_after = more.uid_after;
        last_uid = more.last_uid;
        least = omega (arith, one.least, more.least);
        fits = more.fits;
        rows = λ uid le. more.rows uid (omega (arith, le, one.least)) ∙ one.rows uid le;
      }
