-- ===== src/Email/Sync/Imap/Uids.antt =====
-- Lists of UIDs in internal/email/sync/imap_sync.go: the maximum, `FilterAboveUID`, the sort, and the
-- batches of 50.
use regent_backend.Base.{
  ℕ, zero, suc, ◌%◌, ◌^◌, List, [], ◌∷◌, ltb, leb, if◌then◌else◌, take, drop, filter,
}

-- The loop of the maximum, from its first element.
unfoldable pub max_from : ℕ → List ℕ → ℕ
max_from top [] = top
max_from top (uid ∷ rest) = max_from (if ltb top uid then uid else top) rest

unfoldable pub max_uid : List ℕ → ℕ
max_uid [] = 0
max_uid (uid ∷ rest) = max_from uid (uid ∷ rest)

-- `FilterAboveUID` with a last UID, whose conversion keeps 32 bits.
unfoldable pub filter_above_uid : (last : ℕ) → List ℕ → List ℕ
filter_above_uid last uids = filter (λ uid. ltb (last % 2 ^ 32) uid) uids

unfoldable pub insert_uid : ℕ → List ℕ → List ℕ
insert_uid uid [] = uid ∷ []
insert_uid uid (head ∷ rest) =
    let more = insert_uid uid rest in if leb uid head then uid ∷ (head ∷ rest) else head ∷ more

unfoldable pub sort_uids : List ℕ → List ℕ
sort_uids [] = []
sort_uids (uid ∷ rest) = insert_uid uid (sort_uids rest)

abbrev pub imap_batch_size : ℕ
imap_batch_size = 50

-- The slices `uids[i:end]`; the fuel is the number of UIDs.
unfoldable pub batches : (fuel : ℕ) → List ℕ → List (List ℕ)
batches zero uids = []
batches (suc fuel) [] = []
batches (suc fuel) (uid ∷ rest) =
    take imap_batch_size (uid ∷ rest) ∷ batches fuel (drop imap_batch_size (uid ∷ rest))
