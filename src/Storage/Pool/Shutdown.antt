-- ===== src/Storage/Pool/Shutdown.antt =====
-- A closed pool stays closed and empty, and keeps account of what the threads still hold.
use distributed_chat_system.Prelude.{
  ℕ, ◌+◌, ◌^◌, ◌<◌, ◌≡◌, refl, ◌∙◌, true, List, [], ◌∷◌, length, arith,
}
use distributed_chat_system.Storage.Pool.{
  MySqlPool, get_connection, put_back, discard, reserve, fill, stop, drain, drain_loop, System,
  Step, borrows, refuses, returns, discards, reserves, finds_no_place, gives_up, creates, stops,
  drains, Reach, here, next, new_system,
}
use distributed_chat_system.Storage.Pool.Invariant.{Reach-IsValid, pool-IsValid, Step-IsValid}

abbrev pub IsShut : System → Type 0
IsShut s = (s.pool.stopped ≡ true) × (s.pool.connections ≡ [])

drain_loop-stopped : (cs : List ℕ) (p : MySqlPool) → (drain_loop cs p).stopped ≡ p.stopped
unfolding drain_loop
drain_loop-stopped [] p = refl
drain_loop-stopped (c ∷ cs) p = drain_loop-stopped cs _

drain_loop-connections :
    (cs : List ℕ) (p : MySqlPool) → cs ≡ p.connections → (drain_loop cs p).connections ≡ []
unfolding drain_loop
drain_loop-connections [] p e = ground arith
drain_loop-connections (c ∷ cs) p e = drain_loop-connections cs _ refl

Step-IsShut : {s t : System} → Step s t → IsShut s → IsShut t
Step-IsShut (borrows p c e) v = unfold get_connection in ground arith
Step-IsShut (refuses p e) v = unfold get_connection in ground arith
Step-IsShut (returns before c after e) v = unfold put_back in ground arith
Step-IsShut (discards before c after e) v = unfold discard in ground arith
Step-IsShut (reserves p e) v = unfold reserve in ground arith
Step-IsShut (finds_no_place p e) v = unfold reserve in ground arith
Step-IsShut (gives_up n e) v = unfold fill in ground arith
Step-IsShut (creates n c e f) v = unfold fill in ground arith
Step-IsShut stops v = unfold stop in ground arith
Step-IsShut {s} (drains e) v =
    unfold drain in
    ground (
      arith,
      drain_loop-stopped s.pool.connections s.pool,
      drain_loop-connections s.pool.connections s.pool refl,
    )

Reach-IsShut : {s t : System} → IsShut s → Reach s t → IsShut t
Reach-IsShut v here = v
Reach-IsShut v (next r st) = Step-IsShut st (Reach-IsShut v r)

drained-IsShut : (s : System) → s.pool.stopped ≡ true → IsShut (record s { pool = drain s.pool })
unfolding drain
drained-IsShut s e = (
  drain_loop-stopped s.pool.connections s.pool ∙ e,
  drain_loop-connections s.pool.connections s.pool refl,
)

-- For a size below 2^64: after Close has emptied a stopped pool, whatever the threads still do,
-- the pool stays stopped with nothing idle, and the live connections are those that threads hold
-- or are making.
pub drain-IsShut :
    {size : ℕ} {s t : System}
    → size < 2 ^ 64
    → Reach (new_system size) s
    → s.pool.stopped ≡ true
    → Reach (record s { pool = drain s.pool }) t
    → IsShut t × (t.pool.live_connections ≡ length t.held + t.creating)
drain-IsShut {size} {s} {t} h r e later =
    let v = pool-IsValid h r in
    let shut = Reach-IsShut (drained-IsShut s e) later in
    let v' = Reach-IsValid h (Step-IsValid h (drains e) v) later in
    (shut, ground (arith, v'.exact, shut.1))
