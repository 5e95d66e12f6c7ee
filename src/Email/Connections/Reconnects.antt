-- ===== src/Email/Connections/Reconnects.antt =====
-- The reconnect loop: what it waits for, and that a known account always finds room.
use regent_backend.Base.{
  ℕ, zero, suc, ◌*◌, ◌<◌, ◌≡◌, ◌≢◌, refl, ap, ◌∙◌, true, none, some, List, [], ◌∷◌, ◌++◌, arith,
  ltb, Bool-cases, length, min, inl, inr, replicate, get_elem?,
}
use regent_backend.Email.Connections.{
  connected, Connections, ManagedConnection, ConnectionManager, lookup, delete, count, get,
  register, remove, client_of, Reconnector, Turn, failed_dial, dialed, ok, re_register, attempts,
  reconnect, double_capped, calculate_backoff,
}
use regent_backend.Email.Connections.Bounds.{IsBounded, length-delete_lt}

abbrev pub connection_of : ℕ → ManagedConnection
connection_of client = record {
  client = some client;
  status = connected;
  last_fetch = none;
  error_count = 0;
}

-- The registry has the new client for the account, and what it had for the others.
abbrev pub Holds : (id client : ℕ) → (before after : ConnectionManager) → Type 0
Holds id client before after =
    (get id after ≡ some (connection_of client))
    × ((other : ℕ) → id ≢ other → get other after ≡ get other before)

register-room :
    (id client : ℕ) (m : ConnectionManager)
    → length m.connections < m.max_conns
    → (register id client m).1 ≡ true
unfolding register count
register-room id client m h = ground (arith, h)

register-registry :
    (id client : ℕ) (m : ConnectionManager)
    → length m.connections < m.max_conns
    → (register id client m).0.connections ≡ (id, connection_of client) ∷ delete id m.connections
unfolding register count
register-registry id client m h = ground (arith, h)

lookup-delete :
    (id other : ℕ) (cs : Connections) → (id ≢ other) → lookup other (delete id cs) ≡ lookup other cs
unfolding lookup delete
lookup-delete id other [] h = refl
lookup-delete id other ((k, c) ∷ rest) h =
    let more = lookup-delete id other rest h in ground (arith, more, h)

lookup-registered :
    (id client : ℕ) (cs : Connections)
    → lookup id ((id, connection_of client) ∷ cs) ≡ some (connection_of client)
unfolding lookup
lookup-registered id client cs = ground arith

lookup-other :
    (id client other : ℕ) (cs : Connections)
    → id ≢ other
    → lookup other ((id, connection_of client) ∷ cs) ≡ lookup other cs
unfolding lookup
lookup-other id client other cs h = ground (arith, h)

-- A bounded registry that knows the account takes the new client in, and closes the old one; the other
-- accounts keep theirs.
re_register-known :
    (id client : ℕ) (m : ConnectionManager) (c : ManagedConnection)
    → IsBounded m
    → lookup id m.connections ≡ some c
    → ((re_register id client m).result ≡ ok)
      × ((re_register id client m).closed ≡ client_of (some c))
      × Holds id client m (re_register id client m).manager
unfolding re_register remove get
re_register-known id client m c (d, l) found =
    let room = length-delete_lt id c m.connections found in
    let m' = record m { connections = delete id m.connections } in
    let fits : length m'.connections < m'.max_conns = omega (arith, room, l) in
    let registered = register-room id client m' fits in
    let now = register-registry id client m' fits in
    (
      rw registered refl,
      rw (registered, found) refl,
      (
        rw now (lookup-registered id client (delete id m'.connections)),
        λ other h. rw now (
            lookup-other id client other (delete id m'.connections) h
            ∙ lookup-delete id other m'.connections h
            ∙ lookup-delete id other m.connections h),
      ),
    )

double_capped-cap : (n mx : ℕ) → double_capped n mx mx ≡ mx
unfolding double_capped
double_capped-cap zero mx = refl
double_capped-cap (suc n) mx = elim (Bool-cases (ltb mx (mx * 2))) [
  | inl y ↦ rw y refl
  | inr m ↦ rw m (ap (double_capped n mx) (ground (arith, m)) ∙ double_capped-cap n mx)
]

double_capped-min : (n mx b : ℕ) → double_capped n mx (min (b * 2) mx) ≡ double_capped (suc n) mx b
unfolding double_capped
double_capped-min n mx b = elim (Bool-cases (ltb mx (b * 2))) [
  | inl y ↦ rw y (ap (double_capped n mx) (ground (arith, y)) ∙ double_capped-cap n mx)
  | inr m ↦ rw m (ap (double_capped n mx) (ground (arith, m)))
]

module _ (mx id client : ℕ) (turns : List Turn) (m : ConnectionManager) where
  -- A number of failed dials, and then a client.
  abbrev pub after_failures : ℕ → List Turn
  after_failures n = replicate n failed_dial ++ dialed client ∷ turns

  attempts-result :
      (n left b : ℕ)
      → n < left
      → ((attempts left mx b id (after_failures n) m).result ≡ (re_register id client m).result)
        × ((attempts left mx b id (after_failures n) m).closed ≡ (re_register id client m).closed)
        × ((attempts left mx b id (after_failures n) m).manager ≡ (re_register id client m).manager)
  unfolding attempts
  attempts-result n zero b h = elim h [ ]
  attempts-result zero (suc left) b h = (refl, refl, refl)
  attempts-result (suc n) (suc left) b h =
      attempts-result n left (min (b * 2) mx) (omega (arith, h))

  attempts-waits :
      (n left b k : ℕ)
      → n < left
      → k < n
      → get_elem? (attempts left mx b id (after_failures n) m).waits k ≡ some (double_capped k mx b)
  unfolding attempts double_capped
  attempts-waits n zero b k h l = elim h [ ]
  attempts-waits zero (suc left) b k h l = elim l [ ]
  attempts-waits (suc n) (suc left) b zero h l = refl
  attempts-waits (suc n) (suc left) b (suc k) h l =
      attempts-waits n left (min (b * 2) mx) k (omega (arith, h)) (omega (arith, l))
      ∙ ap some (double_capped-min k mx b)

-- In a bounded registry that knows the account, a dial that succeeds before the attempts run out
-- is answered by nil, never by the limit: the registry then has a new connection of that client for the
-- account and what it had for the others, and the client before, alone, was closed. The wait after the
-- k-th failed dial, from 0, is `CalculateBackoff(k)`, before jitter.
pub reconnect-known :
    (r : Reconnector) (id client n : ℕ) (turns : List Turn) (m : ConnectionManager)
    (c : ManagedConnection)
    → IsBounded m
    → get id m ≡ some c
    → n < r.max_attempts
    → let e = reconnect r id (after_failures r.max_backoff id client turns m n) m in
      (e.result ≡ ok)
      × (e.closed ≡ client_of (some c))
      × Holds id client m e.manager
      × ((k : ℕ)
          → k < n
          → get_elem? e.waits k ≡ some (calculate_backoff k r.base_backoff r.max_backoff))
unfolding reconnect calculate_backoff get
reconnect-known r id client n turns m c bounded found h =
    let (taken, closed, kept) =
      attempts-result r.max_backoff id client turns m n r.max_attempts r.base_backoff h in
    let (taken', closed', (new, others)) = re_register-known id client m c bounded found in
    (
      taken ∙ taken',
      closed ∙ closed',
      (
        ap (λ x. lookup id x.connections) kept ∙ new,
        λ other q. ap (λ x. lookup other x.connections) kept ∙ others other q,
      ),
      λ k l. attempts-waits r.max_backoff id client turns m n r.max_attempts r.base_backoff k h l,
    )
