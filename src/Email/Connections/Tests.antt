-- ===== src/Email/Connections/Tests.antt =====
-- The registry and the reconnect loop at concrete inputs.
use regent_backend.Base.{ℕ, ◌<◌, ◌≡◌, refl, false, none, some, [], ◌∷◌, arith, get_elem?}
use regent_backend.Email.Connections.{
  ManagedConnection, ConnectionManager, connected, errored, lookup, delete, count, get, register,
  new_connection_manager, client_of, Reconnector, failed_dial, dialed, ok, reconnect, attempts,
  re_register, calculate_backoff,
}
use regent_backend.Email.Connections.Bounds.{
  registers, removes, apply_all, IsBounded, new_connection_manager-IsBounded,
}
use regent_backend.Email.Connections.Reconnects.{after_failures, Holds, reconnect-known}

-- A registry for one connection, which is in use.
abbrev old : ManagedConnection
old = record { client = some 100; status = errored; last_fetch = none; error_count = 1 }

abbrev full : ConnectionManager
full = record { connections = (5, old) ∷ []; max_conns = 1 }

abbrev patient : Reconnector
patient = record { base_backoff = 1; max_backoff = 6; max_attempts = 10 }

-- The account is known, but the registry is full.
full_refuses : (register 5 101 full).1 ≡ false
unfolding register count
full_refuses = refl

-- A second client takes the place of the first, which no operation closes any more.
first_client_lost :
    get 5 (register 5 101 (register 5 100 (new_connection_manager 3)).0).0
    ≡ some (record { client = some 101; status = connected; last_fetch = none; error_count = 0 })
unfolding get lookup register count delete new_connection_manager
first_client_lost = refl

waits_capped :
    (reconnect patient 5
      (failed_dial ∷ failed_dial ∷ failed_dial ∷ failed_dial ∷ dialed 7 ∷ [])
      full).waits
    ≡ 1 ∷ 2 ∷ 4 ∷ 6 ∷ []
unfolding reconnect attempts re_register
waits_capped = refl

new_connection_manager-IsBounded_example :
    IsBounded
      (apply_all (registers 5 100 ∷ registers 6 101 ∷ removes 5 ∷ []) (new_connection_manager 1))
new_connection_manager-IsBounded_example =
    new_connection_manager-IsBounded 1 (registers 5 100 ∷ registers 6 101 ∷ removes 5 ∷ [])

reconnect-known_example :
    let e = reconnect patient 5 (after_failures 6 5 7 [] full 4) full in
    (e.result ≡ ok)
    × (e.closed ≡ 100 ∷ [])
    × Holds 5 7 full e.manager
    × ((k : ℕ) → k < 4 → get_elem? e.waits k ≡ some (calculate_backoff k 1 6))
unfolding client_of get lookup
reconnect-known_example =
    reconnect-known patient 5 7 4 [] full old ((tt, tt), omega arith) refl (omega arith)
