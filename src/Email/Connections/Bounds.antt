-- ===== src/Email/Connections/Bounds.antt =====
-- The registry never holds more connections than its limit, and one for an account.
use regent_backend.Base.{
  ℕ, ◌≤◌, ◌<◌, ◌≡◌, refl, sym, ap, ◌∙◌, ◌≢◌, inl, inr, some, List, [], ◌∷◌, arith, leb, ◌==◌,
  if◌then◌else◌, Bool-cases, All, length,
}
use regent_backend.Email.Connections.{
  ManagedConnection, Connections, ConnectionManager, lookup, delete, modify, count, register,
  remove, set_error, update_last_fetch, close_all, new_connection_manager,
}

abbrev pub Differs : ℕ → ℕ × ManagedConnection → Type 0
Differs id (k, c) = k ≢ id

-- No account twice.
abbrev pub IsDistinct : Connections → Type 0
IsDistinct [] = Unit
IsDistinct ((k, c) ∷ rest) = All (Differs k) rest × IsDistinct rest

abbrev pub IsBounded : ConnectionManager → Type 0
IsBounded m = IsDistinct m.connections × (length m.connections ≤ m.max_conns)

delete-Differs : (id : ℕ) (cs : Connections) → All (Differs id) (delete id cs)
unfolding delete
delete-Differs id [] = tt
delete-Differs id ((k, c) ∷ rest) = elim (Bool-cases (k == id)) [
  | inl y ↦ rw y (delete-Differs id rest)
  | inr n ↦ rw n ((ground (arith, n)), delete-Differs id rest)
]

delete-All :
    (P : ℕ × ManagedConnection → Type 0) (id : ℕ) (cs : Connections)
    → All P cs
    → All P (delete id cs)
unfolding delete
delete-All P id [] h = tt
delete-All P id ((k, c) ∷ rest) (h, hs) = elim (Bool-cases (k == id)) [
  | inl y ↦ rw y (delete-All P id rest hs)
  | inr n ↦ rw n (h, delete-All P id rest hs)
]

delete-IsDistinct : (id : ℕ) (cs : Connections) → IsDistinct cs → IsDistinct (delete id cs)
unfolding delete
delete-IsDistinct id [] h = tt
delete-IsDistinct id ((k, c) ∷ rest) (h, hs) = elim (Bool-cases (k == id)) [
  | inl y ↦ rw y (delete-IsDistinct id rest hs)
  | inr n ↦ rw n (delete-All (Differs k) id rest h, delete-IsDistinct id rest hs)
]

pub length-delete_le : (id : ℕ) (cs : Connections) → length (delete id cs) ≤ length cs
unfolding delete
length-delete_le id [] = omega arith
length-delete_le id ((k, c) ∷ rest) =
    let shorter = length-delete_le id rest in ground (arith, shorter)

-- The deletion of a known account makes room.
pub length-delete_lt :
    (id : ℕ) (c : ManagedConnection) (cs : Connections)
    → lookup id cs ≡ some c
    → length (delete id cs) < length cs
unfolding delete lookup
length-delete_lt id c [] h = ground (arith, h)
length-delete_lt id c ((k, d) ∷ rest) h = elim (Bool-cases (k == id)) [
  | inl y ↦ rw y (omega (arith, length-delete_le id rest))
  | inr n ↦
      let found = ap (λ b. if b then some d else lookup id rest) (sym n) ∙ h in
      rw n (omega (arith, length-delete_lt id c rest found))
]

modify-All :
    (id k : ℕ) (f : ManagedConnection → ManagedConnection) (cs : Connections)
    → All (Differs k) cs
    → All (Differs k) (modify id f cs)
unfolding modify
modify-All id k f [] h = tt
modify-All id k f ((j, c) ∷ rest) (h, hs) = elim (Bool-cases (j == id)) [
  | inl y ↦ rw y (h, modify-All id k f rest hs)
  | inr n ↦ rw n (h, modify-All id k f rest hs)
]

modify-IsDistinct :
    (id : ℕ) (f : ManagedConnection → ManagedConnection) (cs : Connections)
    → IsDistinct cs
    → IsDistinct (modify id f cs)
unfolding modify
modify-IsDistinct id f [] h = tt
modify-IsDistinct id f ((j, c) ∷ rest) (h, hs) = elim (Bool-cases (j == id)) [
  | inl y ↦ rw y (modify-All id j f rest h, modify-IsDistinct id f rest hs)
  | inr n ↦ rw n (modify-All id j f rest h, modify-IsDistinct id f rest hs)
]

length-modify :
    (id : ℕ) (f : ManagedConnection → ManagedConnection) (cs : Connections)
    → length (modify id f cs) ≡ length cs
unfolding modify
length-modify id f [] = refl
length-modify id f ((j, c) ∷ rest) = let same = length-modify id f rest in ground (arith, same)

register-IsBounded :
    (id client : ℕ) (m : ConnectionManager) → IsBounded m → IsBounded (register id client m).0
unfolding register count
register-IsBounded id client m (d, l) = elim (Bool-cases (leb m.max_conns (length m.connections))) [
  | inl y ↦ rw y (d, l)
  | inr n ↦ rw n (
    (delete-Differs id m.connections, delete-IsDistinct id m.connections d),
    ground (arith, n, length-delete_le id m.connections),
  )
]

-- The operations that change the registry.
pub data Op : Type 0 where
  registers : (account_id client : ℕ) → Op
  removes sets_error : (account_id : ℕ) → Op
  fetches : (account_id now : ℕ) → Op
  closes_all : Op

abbrev pub apply : Op → ConnectionManager → ConnectionManager
apply (registers id client) m = (register id client m).0
apply (removes id) m = (remove id m).0
apply (sets_error id) m = set_error id m
apply (fetches id now) m = update_last_fetch id now m
apply closes_all m = (close_all m).0

abbrev pub apply_all : List Op → ConnectionManager → ConnectionManager
apply_all [] m = m
apply_all (o ∷ rest) m = apply_all rest (apply o m)

apply-IsBounded : (o : Op) (m : ConnectionManager) → IsBounded m → IsBounded (apply o m)
unfolding remove set_error update_last_fetch close_all
apply-IsBounded (registers id client) m h = register-IsBounded id client m h
apply-IsBounded (removes id) m (d, l) =
    (delete-IsDistinct id m.connections d, omega (arith, l, length-delete_le id m.connections))
apply-IsBounded (sets_error id) m (d, l) =
    (modify-IsDistinct id _ m.connections d, omega (arith, l, length-modify id _ m.connections))
apply-IsBounded (fetches id now) m (d, l) =
    (modify-IsDistinct id _ m.connections d, omega (arith, l, length-modify id _ m.connections))
apply-IsBounded closes_all m (d, l) = (tt, omega arith)

apply_all-IsBounded :
    (ops : List Op) (m : ConnectionManager) → IsBounded m → IsBounded (apply_all ops m)
apply_all-IsBounded [] m h = h
apply_all-IsBounded (o ∷ rest) m h = apply_all-IsBounded rest (apply o m) (apply-IsBounded o m h)

-- Whatever is done to a new registry, it holds at most one connection for an account, and no more
-- connections than its limit.
pub new_connection_manager-IsBounded :
    (limit : ℕ) (ops : List Op) → IsBounded (apply_all ops (new_connection_manager limit))
unfolding new_connection_manager
new_connection_manager-IsBounded limit ops =
    apply_all-IsBounded ops (new_connection_manager limit) (tt, omega arith)
