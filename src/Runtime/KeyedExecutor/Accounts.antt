-- ===== src/Runtime/KeyedExecutor/Accounts.antt =====
-- The counters of the executor are exact, and the queues bounded, in every order of events.
use distributed_chat_system.Prelude.{
  ℕ, zero, suc, ◌+◌, ◌≤◌, ◌<◌, ◌≡◌, refl, ap, none, some, List, [], ◌∷◌, length, if◌then◌else◌,
  arith, length-append, All,
}
use distributed_chat_system.Runtime.KeyedExecutor.{
  Shard, Metrics, KeyedExecutor, new_shards, new_executor, post_shard, take_front, take_shard,
  finish_shard, stop_shard, tick_shard, on_shard, Event, posts, takes, finishes, stops, ticks,
  target, operation, step, run,
}

abbrev pub total_queued : List Shard → ℕ
total_queued [] = 0
total_queued (s ∷ ss) = length s.queue + total_queued ss

abbrev pub busy : Shard → ℕ
busy s = elim s.running [ none ↦ 0 | some t ↦ 1 ]

abbrev pub total_running : List Shard → ℕ
total_running [] = 0
total_running (s ∷ ss) = busy s + total_running ss

-- What has been accepted so far, as far as the metrics and the workers tell.
abbrev pub accounted : List Shard → Metrics → ℕ
accounted ss m = m.queued + total_running ss + m.completed + m.cancelled

-- An operation on a shard keeps the account of `queued` and the bound of the queue.
pub record Keeps (capacity : ℕ) (f : Shard → Metrics → Shard × Metrics) (s : Shard) (m : Metrics)
    : Type 0 where
  pub queue : (f s m).1.queued + length s.queue ≡ m.queued + length (f s m).0.queue
  pub bound : length (f s m).0.queue ≤ capacity

take_front-Keeps :
    (capacity : ℕ) (q : List ℕ) (s : Shard) (m : Metrics)
    → q ≡ s.queue
    → length s.queue ≤ capacity
    → length s.queue ≤ m.queued
    → ((take_front q s m).1.queued + length s.queue ≡ m.queued + length (take_front q s m).0.queue)
      × (length (take_front q s m).0.queue ≤ capacity)
take_front-Keeps capacity [] s m e h k = omega arith
take_front-Keeps capacity (t ∷ ts) s m e h k = omega (arith, ap length e)

operation-Keeps :
    (e : KeyedExecutor) (event : Event) (s : Shard) (m : Metrics)
    → length s.queue ≤ e.capacity
    → length s.queue ≤ m.queued
    → Keeps e.capacity (operation e event) s m
unfolding operation
operation-Keeps e (posts key task) s m h k =
    unfold post_shard in ground (arith, length-append s.queue (task ∷ []))
operation-Keeps e (takes i) s m h k =
    unfold take_shard in ground (arith, take_front-Keeps e.capacity s.queue s m refl h k)
operation-Keeps e (finishes i throws) s m h k = unfold finish_shard in ground arith
operation-Keeps e (stops i drain) s m h k = unfold stop_shard in ground arith
operation-Keeps e (ticks i throws) s m h k = unfold tick_shard in ground arith

-- Whether the event is a post that this shard accepts, as a number.
abbrev pub accepts : ℕ → Event → Shard → Metrics → ℕ
accepts capacity (posts key task) s m = if (post_shard capacity task s m).2 then 1 else 0
accepts capacity (takes i) s m = 0
accepts capacity (finishes i throws) s m = 0
accepts capacity (stops i drain) s m = 0
accepts capacity (ticks i throws) s m = 0

take_front-balance :
    (q : List ℕ) (s : Shard) (m : Metrics)
    → q ≡ s.queue
    → s.running ≡ none
    → length s.queue ≤ m.queued
    → (take_front q s m).1.queued
        + busy (take_front q s m).0
        + (take_front q s m).1.completed
        + (take_front q s m).1.cancelled
      ≡ m.queued + m.completed + m.cancelled
take_front-balance [] s m e r k = ground arith
take_front-balance (t ∷ ts) s m e r k = omega (arith, ap length e)

operation-balance :
    (e : KeyedExecutor) (event : Event) (s : Shard) (m : Metrics)
    → length s.queue ≤ m.queued
    → (operation e event s m).1.queued
        + busy (operation e event s m).0
        + (operation e event s m).1.completed
        + (operation e event s m).1.cancelled
      ≡ m.queued + busy s + m.completed + m.cancelled + accepts e.capacity event s m
unfolding operation
operation-balance e (posts key task) s m k = unfold post_shard in ground arith
operation-balance e (takes i) s m k =
    unfold take_shard in ground (arith, take_front-balance s.queue s m refl)
operation-balance e (finishes i throws) s m k = unfold finish_shard in ground arith
operation-balance e (stops i drain) s m k = unfold stop_shard in ground arith
operation-balance e (ticks i throws) s m k = unfold tick_shard in ground arith

-- The same for the shard with an index.
abbrev pub accepts_at : ℕ → Event → ℕ → List Shard → Metrics → ℕ
accepts_at capacity event i [] m = 0
accepts_at capacity event zero (s ∷ ss) m = accepts capacity event s m
accepts_at capacity event (suc i) (s ∷ ss) m = accepts_at capacity event i ss m

abbrev pub IsBounded : ℕ → List Shard → Type 0
IsBounded capacity ss = All (λ s. length s.queue ≤ capacity) ss

pub record Balanced (capacity accepted : ℕ) (old new : List Shard) (m m' : Metrics) : Type 0 where
  pub queue : m'.queued + total_queued old ≡ m.queued + total_queued new
  pub bound : IsBounded capacity new
  pub account : accounted new m' ≡ accounted old m + accepted

on_shard-Balanced :
    (e : KeyedExecutor) (event : Event) (i : ℕ) (ss : List Shard) (m : Metrics)
    → total_queued ss ≤ m.queued
    → IsBounded e.capacity ss
    → Balanced e.capacity
        (accepts_at e.capacity event i ss m)
        ss
        (on_shard (operation e event) i ss m).0
        m
        (on_shard (operation e event) i ss m).1
unfolding on_shard
on_shard-Balanced e event i [] m k b = ground arith
on_shard-Balanced e event zero (s ∷ ss) m k b =
    let keeps = operation-Keeps e event s m b.0 (omega arith) in
    let balance = operation-balance e event s m (omega arith) in
    record {
      queue = omega (arith, keeps.queue);
      bound = (keeps.bound, b.1);
      account = omega (arith, balance);
    }
on_shard-Balanced e event (suc i) (s ∷ ss) m k b =
    let rest = on_shard-Balanced e event i ss m (omega arith) b.1 in
    record {
      queue = omega (arith, rest.queue);
      bound = (b.0, rest.bound);
      account = omega (arith, rest.account);
    }

-- The posts that were accepted along a run.
abbrev pub accepted : KeyedExecutor → List Event → ℕ
accepted e [] = 0
accepted e (event ∷ events) =
    accepts_at e.capacity event (target e event) e.shards e.metrics + accepted (step e event) events

pub record IsValid (e : KeyedExecutor) : Type 0 where
  pub exact : e.metrics.queued ≡ total_queued e.shards
  pub bound : IsBounded e.capacity e.shards

step-IsValid :
    (e : KeyedExecutor) (event : Event)
    → IsValid e
    → IsValid (step e event)
      × (accounted (step e event).shards (step e event).metrics
          ≡ accounted e.shards e.metrics
            + accepts_at e.capacity event (target e event) e.shards e.metrics)
unfolding step
step-IsValid e event v =
    let b = on_shard-Balanced e event (target e event) e.shards e.metrics (omega arith) v.bound in
    (record { exact = omega (arith, b.queue); bound = b.bound }, b.account)

-- The account of `queued`, the bound, and the count of accepted tasks, over a run.
pub run-IsAccounted :
    (e : KeyedExecutor) (events : List Event)
    → IsValid e
    → IsValid (run e events)
      × (accounted (run e events).shards (run e events).metrics
          ≡ accounted e.shards e.metrics + accepted e events)
unfolding run
run-IsAccounted e [] v = (v, omega arith)
run-IsAccounted e (event ∷ events) v =
    let s = step-IsValid e event v in
    let rest = run-IsAccounted (step e event) events s.0 in (rest.0, omega (arith, rest.1, s.1))

new_shards-empty :
    (n capacity : ℕ)
    → (total_queued (new_shards n) ≡ 0)
      × (total_running (new_shards n) ≡ 0)
      × IsBounded capacity (new_shards n)
new_shards-empty zero capacity = omega arith
new_shards-empty (suc n) capacity =
    let rest = new_shards-empty n capacity in
    (omega (arith, rest.0), omega (arith, rest.1), (omega arith, rest.2))

-- What the executor's constructor makes is valid, accounts for no task and has at least one shard.
pub new_executor-IsValid :
    (count capacity interval : ℕ) (e : KeyedExecutor)
    → new_executor count capacity interval ≡ some e
    → IsValid e × (accounted e.shards e.metrics ≡ 0) × (0 < length e.shards)
unfolding new_executor
new_executor-IsValid zero capacity interval e h = absurd (ground arith)
new_executor-IsValid (suc n) capacity interval e h =
    ground (arith, new_shards-empty (suc n) capacity)
