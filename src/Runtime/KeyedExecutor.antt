-- ===== src/Runtime/KeyedExecutor.antt =====
-- common/KeyedExecutor.h: worker threads with one bounded queue each; a key has a fixed worker.
-- A task is known by a number. Each operation below is one region under a shard's mutex, or the work
-- of a worker between two of them; the counters are atomic. Clock readings and the two time counters
-- are left out, so a tick may come at any time; what it calls is known by whether it throws.
pub mod Accounts
pub mod Tally
pub mod Order
use distributed_chat_system.Prelude.{
  ℕ, zero, suc, ◌+◌, ◌-◌, ◌%◌, ◌^◌, Bool, true, false, not, ◌||◌, Option, none, some, List, [], ◌∷◌,
  ◌++◌, ◌==◌, ltb, leb, length, if◌then◌else◌,
}

pub record Shard : Type 0 where
  pub queue : List ℕ
  pub stopping : Bool
  -- The task that the worker has taken from the queue and not finished.
  pub running : Option ℕ

pub record Metrics : Type 0 where
  pub queued : ℕ
  pub completed : ℕ
  pub rejected : ℕ
  pub failures : ℕ
  pub cancelled : ℕ

pub record KeyedExecutor : Type 0 where
  pub capacity : ℕ
  pub shards : List Shard
  pub metrics : Metrics

abbrev pub new_shard : Shard
new_shard = record { queue = []; stopping = false; running = none }

abbrev pub new_shards : ℕ → List Shard
new_shards zero = []
new_shards (suc n) = new_shard ∷ new_shards n

-- The constructor; `none` is its exception.
unfoldable pub new_executor : ℕ → ℕ → ℕ → Option KeyedExecutor
new_executor count capacity interval =
    if (count == 0) || (capacity == 0) || (interval == 0)
    then none
    else some (record {
      capacity = capacity;
      shards = new_shards count;
      metrics = record { queued = 0; completed = 0; rejected = 0; failures = 0; cancelled = 0 };
    })

-- The shard of a key: a key always has the same worker.
unfoldable pub shard_of : KeyedExecutor → ℕ → ℕ
shard_of e key = key % length e.shards

-- What one operation does to the shard and the metrics, and its answer.
unfoldable pub post_shard : ℕ → ℕ → Shard → Metrics → Shard × Metrics × Bool
post_shard capacity task s m =
    if s.stopping || leb capacity (length s.queue)
    then (s, record m { rejected = m.rejected + 1 }, false)
    else (record s { queue = s.queue ++ task ∷ [] }, record m { queued = m.queued + 1 }, true)

-- `run`: the idle worker takes the front of its queue. A worker has ended where its shard is stopping
-- and its queue is empty, and then takes nothing either.
abbrev pub take_front : List ℕ → Shard → Metrics → Shard × Metrics
take_front [] s m = (s, m)
take_front (t ∷ ts) s m =
    (record s { queue = ts; running = some t }, record m { queued = m.queued - 1 })

unfoldable pub take_shard : Shard → Metrics → Shard × Metrics
take_shard s m = elim s.running [ none ↦ take_front s.queue s m | some t ↦ (s, m) ]

-- `run`: the call returns, or throws, which `invoke` counts.
unfoldable pub finish_shard : Bool → Shard → Metrics → Shard × Metrics
finish_shard throws s m = elim s.running [
  | none ↦ (s, m)
  | some t ↦ (
    record s { running = none },
    record m {
      completed = m.completed + 1;
      failures = if throws then m.failures + 1 else m.failures;
    },
  )
]

-- `stop` on one shard.
unfoldable pub stop_shard : Bool → Shard → Metrics → Shard × Metrics
stop_shard drain s m = if drain then (record s { stopping = true }, m) else (
  record s { stopping = true; queue = [] },
  record m { cancelled = m.cancelled + length s.queue; queued = m.queued - length s.queue },
)

-- A tick, between two tasks of a worker whose shard is not stopping; `invoke` counts an exception.
unfoldable pub tick_shard : Bool → Shard → Metrics → Shard × Metrics
tick_shard throws s m = elim s.running [
  | none ↦ if s.stopping || not throws then (s, m) else (s, record m { failures = m.failures + 1 })
  | some t ↦ (s, m)
]

-- Runs an operation on the shard with this index. Any other index is no shard: nothing happens.
unfoldable pub on_shard :
    (Shard → Metrics → Shard × Metrics) → ℕ → List Shard → Metrics → List Shard × Metrics
on_shard f i [] m = ([], m)
on_shard f zero (s ∷ ss) m = let (s', m') = f s m in (s' ∷ ss, m')
on_shard f (suc i) (s ∷ ss) m = let (ss', m') = on_shard f i ss m in (s ∷ ss', m')

pub data Event : Type 0 where
  posts : ℕ → ℕ → Event
  takes : ℕ → Event
  finishes : ℕ → Bool → Event
  stops : ℕ → Bool → Event
  ticks : ℕ → Bool → Event

abbrev pub post_only : ℕ → ℕ → Shard → Metrics → Shard × Metrics
post_only capacity task s m = ((post_shard capacity task s m).0, (post_shard capacity task s m).1)

-- What an event does, and to which shard.
unfoldable pub target : KeyedExecutor → Event → ℕ
target e (posts key task) = shard_of e key
target e (takes i) = i
target e (finishes i throws) = i
target e (stops i drain) = i
target e (ticks i throws) = i

unfoldable pub operation : KeyedExecutor → Event → Shard → Metrics → Shard × Metrics
operation e (posts key task) = post_only e.capacity task
operation e (takes i) = take_shard
operation e (finishes i throws) = finish_shard throws
operation e (stops i drain) = stop_shard drain
operation e (ticks i throws) = tick_shard throws

unfoldable pub step : KeyedExecutor → Event → KeyedExecutor
step e event =
    let (shards', metrics') = on_shard (operation e event) (target e event) e.shards e.metrics in
    record e { shards = shards'; metrics = metrics' }

unfoldable pub run : KeyedExecutor → List Event → KeyedExecutor
run e [] = e
run e (event ∷ events) = run (step e event) events
