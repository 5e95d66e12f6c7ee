-- ===== src/Middleware/AuthWindow/History.antt =====
-- The limiter against one that forgets nothing.
use regent_backend.Base.{
  ℕ, ◌+◌, ◌≤◌, ◌≡◌, refl, subst, ◌∙◌, Bool, Option, none, some, List, [], ◌∷◌, ◌++◌, length, ltb,
  ◌==◌, if◌then◌else◌, arith,
}
use regent_backend.Middleware.AuthWindow.{
  Limiter, Event, request, clean, new_limiter, is_live, prune, attempts_of, handle, keep_window,
  clean_window, cleanup, decide_all,
}

-- How many of the times are within the duration before `now`.
abbrev pub count_live : (duration now : ℕ) → List ℕ → ℕ
count_live duration now [] = 0
count_live duration now (t ∷ ts) =
    (if is_live duration now t then 1 else 0) + count_live duration now ts

-- The whole history of admitted requests of each client.
abbrev pub History : Type 0
History = ℕ → List ℕ

abbrev pub admit : ℕ → ℕ → History → History
admit ip stamp h j = if ip == j then stamp ∷ h j else h j

-- A request is admitted if fewer than `limit` were admitted within the duration before it.
abbrev pub is_admitted : (limit duration : ℕ) → History → (ip now : ℕ) → Bool
is_admitted limit duration h ip now = ltb (count_live duration now (h ip)) limit

pub decide_by_history : (limit duration : ℕ) → History → List Event → List Bool
decide_by_history limit duration h [] = []
decide_by_history limit duration h (request ip now stamp ∷ es) =
    let ok = is_admitted limit duration h ip now in
    ok ∷ decide_by_history limit duration (if ok then admit ip stamp h else h) es
decide_by_history limit duration h (clean now ∷ es) = decide_by_history limit duration h es

-- A clock that does not go back, from `now` on.
abbrev pub IsMonotone : ℕ → List Event → Type 0
IsMonotone now [] = Unit {0}
IsMonotone now (request ip t stamp ∷ es) = (now ≤ t) × (t ≤ stamp) × IsMonotone t es
IsMonotone now (clean t ∷ es) = (now ≤ t) × IsMonotone t es

length-prune : (d now : ℕ) (ts : List ℕ) → length (prune d now ts) ≡ count_live d now ts
unfolding prune
length-prune d now [] = refl
length-prune d now (t ∷ ts) = ground (arith, length-prune d now ts)

count_live-prune :
    (d now w : ℕ) (ts : List ℕ) → now ≤ w → count_live d w (prune d now ts) ≡ count_live d w ts
unfolding prune
count_live-prune d now w [] h = refl
count_live-prune d now w (t ∷ ts) h = ground (arith, count_live-prune d now w ts h)

count_live-append :
    (d w t : ℕ) (ts : List ℕ)
    → count_live d w (ts ++ t ∷ []) ≡ (if is_live d w t then 1 else 0) + count_live d w ts
count_live-append d w t [] = refl
count_live-append d w t (s ∷ ts) = omega (arith, count_live-append d w t ts)

-- From `now` on the windows hold as many live attempts as the history.
abbrev Agrees : Limiter → ℕ → History → Type 0
Agrees rl now h =
    (w ip : ℕ)
    → now ≤ w
    → count_live rl.duration w (attempts_of (rl.windows ip)) ≡ count_live rl.duration w (h ip)

attempts_of-clean_window :
    (d now w : ℕ) (o : Option (List ℕ))
    → now ≤ w
    → count_live d w (attempts_of (clean_window d now o)) ≡ count_live d w (attempts_of o)
attempts_of-clean_window d now w none h = refl
attempts_of-clean_window d now w (some ts) h = kept (prune d now ts) (count_live-prune d now w ts h)
  where
    kept :
        (us : List ℕ)
        → count_live d w us ≡ count_live d w ts
        → count_live d w (attempts_of (keep_window us)) ≡ count_live d w ts
    kept [] e = e
    kept (u ∷ us) e = e

handle-is_admitted :
    (rl : Limiter) (now : ℕ) (h : History) (ip t stamp : ℕ)
    → Agrees rl now h
    → now ≤ t
    → (handle rl ip t stamp).1 ≡ is_admitted rl.limit rl.duration h ip t
unfolding handle
handle-is_admitted rl now h ip t stamp a le =
    ground (arith, a t ip le, length-prune rl.duration t (attempts_of (rl.windows ip)))

handle-Agrees :
    (rl : Limiter) (now : ℕ) (h : History) (ip t stamp : ℕ)
    → Agrees rl now h
    → now ≤ t
    → Agrees
        (handle rl ip t stamp).0
        t
        (if is_admitted rl.limit rl.duration h ip t then admit ip stamp h else h)
unfolding handle
handle-Agrees rl now h ip t stamp a le w j tw = ground (
  arith,
  a t ip le,
  a w j (omega arith),
  a w ip (omega arith),
  length-prune rl.duration t (attempts_of (rl.windows ip)),
  count_live-prune rl.duration t w (attempts_of (rl.windows ip)) tw,
  count_live-append rl.duration w stamp (prune rl.duration t (attempts_of (rl.windows ip))),
)

cleanup-Agrees :
    (rl : Limiter) (now t : ℕ) (h : History) → Agrees rl now h → now ≤ t → Agrees (cleanup rl t) t h
unfolding cleanup
cleanup-Agrees rl now t h a le w j tw =
    attempts_of-clean_window rl.duration t w (rl.windows j) tw ∙ a w j (omega arith)

handle-config :
    (rl : Limiter) (ip t stamp : ℕ)
    → ((handle rl ip t stamp).0.limit ≡ rl.limit)
      × ((handle rl ip t stamp).0.duration ≡ rl.duration)
unfolding handle
handle-config rl ip t stamp = ground arith

cleanup-config :
    (rl : Limiter) (t : ℕ)
    → ((cleanup rl t).limit ≡ rl.limit) × ((cleanup rl t).duration ≡ rl.duration)
unfolding cleanup
cleanup-config rl t = (refl, refl)

decide_all-history :
    (rl : Limiter) (now l d : ℕ) (h : History) (es : List Event)
    → rl.limit ≡ l
    → rl.duration ≡ d
    → Agrees rl now h
    → IsMonotone now es
    → decide_all rl es ≡ decide_by_history l d h es
unfolding decide_all decide_by_history
decide_all-history rl now l d h [] el ed a m = refl
decide_all-history rl now l d h (request ip t stamp ∷ es) el ed a m =
    let (same_limit, same_duration) = handle-config rl ip t stamp in
    let same : is_admitted rl.limit rl.duration h ip t ≡ is_admitted l d h ip t = rw (el, ed) in
    let first : (handle rl ip t stamp).1 ≡ is_admitted l d h ip t =
      handle-is_admitted rl now h ip t stamp a m.0 ∙ same in
    let agrees =
      subst (λ b. Agrees (handle rl ip t stamp).0 t (if b then admit ip stamp h else h)) same
        (handle-Agrees rl now h ip t stamp a m.0) in
    let rest =
      decide_all-history (handle rl ip t stamp).0 t l d
        (if is_admitted l d h ip t then admit ip stamp h else h) es (same_limit ∙ el)
        (same_duration ∙ ed) agrees m.2 in
    λ i. first i ∷ rest i
decide_all-history rl now l d h (clean t ∷ es) el ed a m =
    decide_all-history (cleanup rl t) t l d h es ((cleanup-config rl t).0 ∙ el)
      ((cleanup-config rl t).1 ∙ ed) (cleanup-Agrees rl now t h a m.0) m.1

-- Over any requests and cleanups in the order of the clock, a new limiter decides each request as
-- if it kept every admitted request: it admits one exactly if that client had fewer than `limit`
-- requests admitted within the duration before it. Pruning and cleanup never change a decision.
pub decide_all-is_admitted :
    (limit duration now : ℕ) (es : List Event)
    → IsMonotone now es
    → decide_all (new_limiter limit duration) es ≡ decide_by_history limit duration (λ ip. []) es
unfolding new_limiter
decide_all-is_admitted limit duration now es m =
    decide_all-history (new_limiter limit duration) now limit duration (λ ip. []) es refl refl
      (λ w ip h. refl) m
