-- ===== src/Storage/Pool.antt =====
-- common/MysqlConnectionPool.h: the pool of database connections.
-- A connection is known by a number. Each function is one region under the pool's mutex; `System`
-- adds what the threads hold between such regions, and `Step` lets the threads interleave freely.
pub mod Invariant
pub mod Shutdown
use distributed_chat_system.Prelude.{
  ℕ, zero, suc, ◌+◌, ◌-◌, ◌%◌, ◌^◌, ◌≡◌, Bool, true, false, ◌||◌, Option, none, some, List, [], ◌∷◌,
  ◌++◌, ltb, leb, length, if◌then◌else◌, contains, nat_eq,
}

pub record MySqlPool : Type 0 where
  pub pool_size : ℕ
  pub connections : List ℕ
  pub live_connections : ℕ
  pub stopped : Bool

-- `--live_connections_` on std::size_t.
abbrev pub decrement : ℕ → ℕ
decrement n = (n + 2 ^ 64 - 1) % 2 ^ 64

-- The same behind its guard.
abbrev pub guarded_decrement : ℕ → ℕ
guarded_decrement n = if ltb 0 n then decrement n else n

abbrev pub pop_front : List ℕ → MySqlPool → MySqlPool × Option ℕ
pop_front [] p = (p, none)
pop_front (c ∷ cs) p = (record p { connections = cs }, some c)

-- getConnection after its wait, and the pop of CheckIdleConnections: none when stopped or empty.
unfoldable pub get_connection : MySqlPool → MySqlPool × Option ℕ
get_connection p = if p.stopped then (p, none) else pop_front p.connections p

-- The end of returnConnection after a successful sanitation, and of a successful health check.
unfoldable pub put_back : ℕ → MySqlPool → MySqlPool
put_back c p =
    if p.stopped
    then record p { live_connections = guarded_decrement p.live_connections }
    else record p { connections = p.connections ++ c ∷ [] }

unfoldable pub discard : MySqlPool → MySqlPool
discard p = record p { live_connections = guarded_decrement p.live_connections }

-- The first region of CreateOneConnection: reserve a place.
unfoldable pub reserve : MySqlPool → MySqlPool × Bool
reserve p =
    if p.stopped || leb p.pool_size p.live_connections
    then (p, false)
    else (record p { live_connections = p.live_connections + 1 }, true)

-- The second one, with what the factory made: give the place back, or fill it.
unfoldable pub fill : Option ℕ → MySqlPool → MySqlPool × Bool
fill none p = (record p { live_connections = decrement p.live_connections }, false)
fill (some c) p =
    if p.stopped
    then (record p { live_connections = decrement p.live_connections }, false)
    else (record p { connections = p.connections ++ c ∷ [] }, true)

-- Close: the flag, and after the health thread was joined the loop that empties the queue.
unfoldable pub stop : MySqlPool → MySqlPool
stop p = record p { stopped = true }

unfoldable pub drain_loop : List ℕ → MySqlPool → MySqlPool
drain_loop [] p = p
drain_loop (c ∷ cs) p =
    drain_loop cs
      (record p { connections = cs; live_connections = guarded_decrement p.live_connections })

unfoldable pub drain : MySqlPool → MySqlPool
unfolding drain_loop
drain p = drain_loop p.connections p

abbrev pub new_pool : ℕ → MySqlPool
new_pool size = record { pool_size = size; connections = []; live_connections = 0; stopped = false }

-- The pool, the connections that threads hold, and the threads that are making a connection.
pub record System : Type 0 where
  pub pool : MySqlPool
  pub held : List ℕ
  pub creating : ℕ

-- A connection that no thread holds and that is not in the pool.
abbrev pub IsFresh : ℕ → System → Type 0
IsFresh c s = (contains s.pool.connections c ≡ false) × (contains s.held c ≡ false)

pub data Step (s : System) : System → Type 0 where
  borrows :
      (p : MySqlPool) (c : ℕ)
      → get_connection s.pool ≡ (p, some c)
      → Step s (record s { pool = p; held = c ∷ s.held })
  refuses : (p : MySqlPool) → get_connection s.pool ≡ (p, none) → Step s (record s { pool = p })
  returns :
      (before : List ℕ) (c : ℕ) (after : List ℕ)
      → s.held ≡ before ++ c ∷ after
      → Step s (record s { pool = put_back c s.pool; held = before ++ after })
  discards :
      (before : List ℕ) (c : ℕ) (after : List ℕ)
      → s.held ≡ before ++ c ∷ after
      → Step s (record s { pool = discard s.pool; held = before ++ after })
  reserves :
      (p : MySqlPool)
      → reserve s.pool ≡ (p, true)
      → Step s (record s { pool = p; creating = s.creating + 1 })
  finds_no_place : (p : MySqlPool) → reserve s.pool ≡ (p, false) → Step s (record s { pool = p })
  gives_up :
      (n : ℕ) → s.creating ≡ suc n → Step s (record s { pool = (fill none s.pool).0; creating = n })
  creates :
      (n c : ℕ)
      → s.creating ≡ suc n
      → IsFresh c s
      → Step s (record s { pool = (fill (some c) s.pool).0; creating = n })
  stops : Step s (record s { pool = stop s.pool })
  drains : s.pool.stopped ≡ true → Step s (record s { pool = drain s.pool })

pub data Reach (s : System) : System → Type 0 where
  here : Reach s s
  next : {t u : System} → Reach s t → Step t u → Reach s u

abbrev pub new_system : ℕ → System
new_system size = record { pool = new_pool size; held = []; creating = 0 }
