-- ===== src/Storage/Pool/Invariant.antt =====
-- The pool's account of live connections, its bound, and the single owner of a connection.
use distributed_chat_system.Prelude.{
  ℕ, ◌+◌, ◌^◌, ◌≤◌, ◌<◌, ◌≡◌, refl, ap, false, Option, none, some, List, [], ◌∷◌, ◌++◌, ◌==◌,
  length, if◌then◌else◌, contains, nat_eq, ==_iff, arith, length-append,
}
use distributed_chat_system.Storage.Pool.{
  MySqlPool, guarded_decrement, get_connection, put_back, discard, reserve, fill, stop, drain_loop,
  drain, System, Step, borrows, refuses, returns, discards, reserves, finds_no_place, gives_up,
  creates, stops, drains, Reach, here, next, new_system,
}

-- How often a connection stands in a list.
abbrev pub count : ℕ → List ℕ → ℕ
count c [] = 0
count c (x ∷ xs) = (if x == c then 1 else 0) + count c xs

count-append : (c : ℕ) (xs ys : List ℕ) → count c (xs ++ ys) ≡ count c xs + count c ys
count-append c [] ys = omega arith
count-append c (x ∷ xs) ys = omega (arith, count-append c xs ys)

contains-count : (c : ℕ) (xs : List ℕ) → contains xs c ≡ false → count c xs ≡ 0
unfolding contains
contains-count c [] h = refl
contains-count c (x ∷ xs) h = ground (arith, contains-count c xs)

-- The account is exact, the bound holds and fits the counter.
pub record IsValid (size : ℕ) (s : System) : Type 0 where
  pub exact : s.pool.live_connections ≡ length s.pool.connections + length s.held + s.creating
  pub bounded : s.pool.live_connections ≤ s.pool.pool_size
  pub configured : s.pool.pool_size ≡ size

-- No connection has two owners.
abbrev pub HasOneOwner : System → Type 0
HasOneOwner s = (c : ℕ) → count c s.pool.connections + count c s.held ≤ 1

get_connection_lem :
    (p q : MySqlPool) (o : Option ℕ)
    → get_connection p ≡ (q, o)
    → (q.live_connections ≡ p.live_connections)
      × (q.pool_size ≡ p.pool_size)
      × (p.connections ≡ elim o [ none ↦ q.connections | some c ↦ c ∷ q.connections ])
unfolding get_connection
get_connection_lem p q none e = ground arith
get_connection_lem p q (some c) e = ground arith

pub drain_loop_lem :
    (cs : List ℕ) (p : MySqlPool)
    → cs ≡ p.connections
    → length cs ≤ p.live_connections
    → p.live_connections < 2 ^ 64
    → ((drain_loop cs p).live_connections + length cs ≡ p.live_connections)
      × ((drain_loop cs p).connections ≡ [])
      × ((drain_loop cs p).pool_size ≡ p.pool_size)
      × ((drain_loop cs p).stopped ≡ p.stopped)
unfolding drain_loop
drain_loop_lem [] p e h k = ground arith
drain_loop_lem (c ∷ cs) p e h k = ground (
  arith,
  drain_loop_lem cs
      (record p { connections = cs; live_connections = guarded_decrement p.live_connections }),
)

drained : (cs : List ℕ) (p : MySqlPool) → cs ≡ p.connections → (drain_loop cs p).connections ≡ []
unfolding drain_loop
drained [] p e = ground arith
drained (c ∷ cs) p e = drained cs _ refl

pub Step-IsValid :
    {size : ℕ} {s t : System} → size < 2 ^ 64 → Step s t → IsValid size s → IsValid size t
Step-IsValid {size} {s} h (borrows p c e) v = ground (arith, get_connection_lem s.pool p (some c) e)
Step-IsValid {size} {s} h (refuses p e) v = ground (arith, get_connection_lem s.pool p none e)
Step-IsValid {size} {s} h (returns before c after e) v =
    unfold put_back in
    ground (
      arith,
      ap length e,
      length-append before (c ∷ after),
      length-append before after,
      length-append s.pool.connections (c ∷ []),
    )
Step-IsValid {size} {s} h (discards before c after e) v =
    unfold discard in
    ground (arith, ap length e, length-append before (c ∷ after), length-append before after)
Step-IsValid {size} {s} h (reserves p e) v = unfold reserve in ground arith
Step-IsValid {size} {s} h (finds_no_place p e) v = unfold reserve in ground arith
Step-IsValid {size} {s} h (gives_up n e) v = unfold fill in ground arith
Step-IsValid {size} {s} h (creates n c e f) v =
    unfold fill in ground (arith, length-append s.pool.connections (c ∷ []))
Step-IsValid h stops v = unfold stop in ground arith
Step-IsValid {size} {s} h (drains e) v =
    unfold drain in ground (arith, drain_loop_lem s.pool.connections s.pool refl)

pub Reach-IsValid :
    {size : ℕ} {s t : System} → size < 2 ^ 64 → IsValid size s → Reach s t → IsValid size t
Reach-IsValid h v here = v
Reach-IsValid h v (next r st) = Step-IsValid h st (Reach-IsValid h v r)

-- For a size below 2^64, in every interleaving of borrowing, returning, discarding, creating and
-- closing threads that starts with a new pool, the live connections are exactly those idle, those
-- held and those being made, and never more than the size.
pub pool-IsValid :
    {size : ℕ} {t : System} → size < 2 ^ 64 → Reach (new_system size) t → IsValid size t
pool-IsValid h r = Reach-IsValid h (omega arith) r

Step-HasOneOwner : {s t : System} → Step s t → HasOneOwner s → HasOneOwner t
Step-HasOneOwner {s} (borrows p c e) v d =
    ground (arith, v d, ap (count d) (get_connection_lem s.pool p (some c) e).2)
Step-HasOneOwner {s} (refuses p e) v d =
    ground (arith, v d, ap (count d) (get_connection_lem s.pool p none e).2)
Step-HasOneOwner {s} (returns before c after e) v d =
    unfold put_back in
    ground (
      arith,
      v d,
      ap (count d) e,
      count-append d before (c ∷ after),
      count-append d before after,
      count-append d s.pool.connections (c ∷ []),
    )
Step-HasOneOwner {s} (discards before c after e) v d =
    unfold discard in
    ground
      (arith, v d, ap (count d) e, count-append d before (c ∷ after), count-append d before after)
Step-HasOneOwner {s} (reserves p e) v d = unfold reserve in ground (arith, v d)
Step-HasOneOwner {s} (finds_no_place p e) v d = unfold reserve in ground (arith, v d)
Step-HasOneOwner (gives_up n e) v d = unfold fill in ground (arith, v d)
Step-HasOneOwner {s} (creates n c e f) v d =
    unfold fill in
    ground (
      arith,
      v d,
      count-append d s.pool.connections (c ∷ []),
      contains-count c s.pool.connections f.0,
      contains-count c s.held f.1,
      ==_iff c d,
    )
Step-HasOneOwner stops v d = unfold stop in ground (arith, v d)
Step-HasOneOwner {s} (drains e) v d =
    unfold drain in ground (arith, v d, drained s.pool.connections s.pool refl)

Reach-HasOneOwner : {s t : System} → HasOneOwner s → Reach s t → HasOneOwner t
Reach-HasOneOwner v here = v
Reach-HasOneOwner v (next r st) = Step-HasOneOwner st (Reach-HasOneOwner v r)

-- No connection is ever held by two threads, or held and idle at once, if the factory makes new ones.
pub pool-HasOneOwner : {size : ℕ} {t : System} → Reach (new_system size) t → HasOneOwner t
pool-HasOneOwner r = Reach-HasOneOwner (λ c. omega arith) r
