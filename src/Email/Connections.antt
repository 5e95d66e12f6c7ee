-- ===== src/Email/Connections.antt =====
-- internal/email/connection/manager.go and reconnect.go: the registry of IMAP connections and the
-- reconnect loop. The Go map is a list of accounts with their connections; a client is a number, and
-- the clients that an operation closes are part of its result.
pub mod Bounds
pub mod Reconnects
mod Tests
use regent_backend.Base.{
  ℕ, zero, suc, ◌+◌, ◌*◌, Bool, true, false, Option, none, some, List, [], ◌∷◌, ◌++◌, map, ltb, leb,
  ◌==◌, if◌then◌else◌, length, min, not,
}

pub data ConnectionStatus : Type 0 where
  connected errored reconnecting : ConnectionStatus

-- `CreatedAt` is left out. `last_fetch` is none for the zero time.
pub record ManagedConnection : Type 0 where
  pub client : Option ℕ
  pub status : ConnectionStatus
  pub last_fetch : Option ℕ
  pub error_count : ℕ

abbrev pub Connections : Type 0
Connections = List (ℕ × ManagedConnection)

pub record ConnectionManager : Type 0 where
  pub connections : Connections
  pub max_conns : ℕ

unfoldable pub new_connection_manager : ℕ → ConnectionManager
new_connection_manager n = record { connections = []; max_conns = n }

unfoldable pub lookup : ℕ → Connections → Option ManagedConnection
lookup id [] = none
lookup id ((k, c) ∷ rest) = let found = lookup id rest in if k == id then some c else found

-- `delete` of a map.
unfoldable pub delete : ℕ → Connections → Connections
delete id [] = []
delete id ((k, c) ∷ rest) =
    let others = delete id rest in if k == id then others else (k, c) ∷ others

-- An entry is changed where it is.
unfoldable pub modify : ℕ → (ManagedConnection → ManagedConnection) → Connections → Connections
modify id f [] = []
modify id f ((k, c) ∷ rest) =
    let others = modify id f rest in if k == id then (k, f c) ∷ others else (k, c) ∷ others

unfoldable pub count : ConnectionManager → ℕ
count m = length m.connections

unfoldable pub get : ℕ → ConnectionManager → Option ManagedConnection
unfolding lookup
get id m = lookup id m.connections

-- A known account is overwritten, and its client is not closed.
unfoldable pub register : (account_id client : ℕ) → ConnectionManager → ConnectionManager × Bool
unfolding count delete
register id client m = if leb m.max_conns (count m) then (m, false) else (
  record m {
    connections =
        (
          id,
          record { client = some client; status = connected; last_fetch = none; error_count = 0 },
        )
        ∷ delete id m.connections;
  },
  true,
)

-- The client of an entry, where it has one.
unfoldable pub client_of : Option ManagedConnection → List ℕ
client_of none = []
client_of (some c) = elim c.client [ none ↦ [] | some x ↦ x ∷ [] ]

unfoldable pub remove : ℕ → ConnectionManager → ConnectionManager × List ℕ
unfolding get client_of delete
remove id m = (record m { connections = delete id m.connections }, client_of (get id m))

unfoldable pub set_error : ℕ → ConnectionManager → ConnectionManager
unfolding modify
set_error id m = record m {
  connections =
      modify id (λ c. record c { status = errored; error_count = c.error_count + 1 }) m.connections;
}

unfoldable pub update_last_fetch : ℕ → (now : ℕ) → ConnectionManager → ConnectionManager
unfolding modify
update_last_fetch id now m = record m {
  connections = modify id (λ c. record c { last_fetch = some now }) m.connections;
}

unfoldable pub clients : Connections → List ℕ
unfolding client_of
clients [] = []
clients ((k, c) ∷ rest) = client_of (some c) ++ clients rest

unfoldable pub close_all : ConnectionManager → ConnectionManager × List ℕ
unfolding clients
close_all m = (record m { connections = [] }, clients m.connections)

unfoldable pub has_status : (connected_wanted : Bool) → ConnectionStatus → Bool
has_status b connected = b
has_status b errored = not b
has_status b reconnecting = false

unfoldable pub count_status : Bool → Connections → ℕ
unfolding has_status
count_status b [] = 0
count_status b ((k, c) ∷ rest) =
    let n = count_status b rest in if has_status b c.status then suc n else n

unfoldable pub active_count : ConnectionManager → ℕ
unfolding count_status
active_count m = count_status true m.connections

unfoldable pub error_count : ConnectionManager → ℕ
unfolding count_status
error_count m = count_status false m.connections

pub record Reconnector : Type 0 where
  pub base_backoff : ℕ
  pub max_backoff : ℕ
  pub max_attempts : ℕ

-- What a turn of the loop meets: a context that is done before the dial or during the wait, a client,
-- or an error and the whole wait.
pub data Turn : Type 0 where
  done_before done_waiting failed_dial : Turn
  dialed : (client : ℕ) → Turn

pub data Reconnected : Type 0 where
  ok cancelled limit_reached gave_up : Reconnected
  -- The list of turns ends first.
  still_trying : Reconnected

-- The manager, the clients closed, the backoffs waited for (before jitter), and the result.
pub record Effect : Type 0 where
  pub manager : ConnectionManager
  pub closed : List ℕ
  pub waits : List ℕ
  pub result : Reconnected

unfoldable pub re_register : (account_id client : ℕ) → ConnectionManager → Effect
unfolding remove register
re_register id client m =
    let (m', old) = remove id m in
    let (m'', registered) = register id client m' in
    record {
      manager = m'';
      closed = if registered then old else old ++ (client ∷ []);
      waits = [];
      result = if registered then ok else limit_reached;
    }

unfoldable pub stop : ConnectionManager → Reconnected → Effect
stop m r = record { manager = m; closed = []; waits = []; result = r }

-- With the attempts that are left. Each client closed or wait made comes before those of the rest.
unfoldable pub attempts :
    (left max_backoff backoff account_id : ℕ) → List Turn → ConnectionManager → Effect
unfolding re_register stop
attempts zero mx b id turns m = stop m gave_up
attempts (suc left) mx b id [] m = stop m still_trying
attempts (suc left) mx b id (done_before ∷ turns) m = stop m cancelled
attempts (suc left) mx b id (done_waiting ∷ turns) m = record (stop m cancelled) { waits = b ∷ [] }
attempts (suc left) mx b id (failed_dial ∷ turns) m =
    let rest = attempts left mx (min (b * 2) mx) id turns m in
    record rest { waits = b ∷ rest.waits }
attempts (suc left) mx b id (dialed client ∷ turns) m = re_register id client m

unfoldable pub reconnect : Reconnector → (account_id : ℕ) → List Turn → ConnectionManager → Effect
unfolding attempts
reconnect r id turns m = attempts r.max_attempts r.max_backoff r.base_backoff id turns m

unfoldable pub double_capped : (times max_backoff backoff : ℕ) → ℕ
double_capped zero mx b = b
double_capped (suc n) mx b =
    let rest = double_capped n mx (b * 2) in if ltb mx (b * 2) then mx else rest

unfoldable pub calculate_backoff : (attempt base max_backoff : ℕ) → ℕ
unfolding double_capped
calculate_backoff n base mx = double_capped n mx base
