-- ===== src/Runtime/KeyedExecutor/Order.antt =====
-- The order in which one worker runs its tasks.
use mathlib.Core.List.{append-nil, append_assoc}
use distributed_chat_system.Prelude.{
  ℕ, ◌≡◌, refl, sym, ap, ◌∙◌, Bool, Option, none, some, List, [], ◌∷◌, ◌++◌, if◌then◌else◌, arith,
}
use distributed_chat_system.Runtime.KeyedExecutor.{
  Shard, Metrics, post_shard, take_front, take_shard, finish_shard, stop_shard,
}

-- What happens to one shard.
pub data ShardEvent : Type 0 where
  posted : ℕ → ShardEvent
  taken : ShardEvent
  finished : Bool → ShardEvent
  stopped : Bool → ShardEvent

abbrev pub shard_step : ℕ → ShardEvent → Shard × Metrics → Shard × Metrics
shard_step capacity (posted t) (s, m) =
    ((post_shard capacity t s m).0, (post_shard capacity t s m).1)
shard_step capacity taken (s, m) = take_shard s m
shard_step capacity (finished throws) (s, m) = finish_shard throws s m
shard_step capacity (stopped drain) (s, m) = stop_shard drain s m

-- The task that a step accepts.
abbrev pub accepted_by : ℕ → ShardEvent → Shard × Metrics → List ℕ
accepted_by capacity (posted t) (s, m) = if (post_shard capacity t s m).2 then t ∷ [] else []
accepted_by capacity taken sm = []
accepted_by capacity (finished throws) sm = []
accepted_by capacity (stopped drain) sm = []

abbrev pub task_of : Option ℕ → List ℕ
task_of none = []
task_of (some t) = t ∷ []

-- What an idle worker runs after its step, and what a stop discards.
abbrev pub left_by : ShardEvent → Shard × Metrics → List ℕ
left_by (posted t) sm = []
left_by taken (s, m) = elim s.running [ none ↦ task_of (take_shard s m).0.running | some t ↦ [] ]
left_by (finished throws) sm = []
left_by (stopped drain) (s, m) = if drain then [] else s.queue

abbrev pub shard_run : ℕ → List ShardEvent → Shard × Metrics → Shard × Metrics
shard_run capacity [] sm = sm
shard_run capacity (e ∷ es) sm = shard_run capacity es (shard_step capacity e sm)

abbrev pub all_accepted : ℕ → List ShardEvent → Shard × Metrics → List ℕ
all_accepted capacity [] sm = []
all_accepted capacity (e ∷ es) sm =
    accepted_by capacity e sm ++ all_accepted capacity es (shard_step capacity e sm)

abbrev pub all_left : ℕ → List ShardEvent → Shard × Metrics → List ℕ
all_left capacity [] sm = []
all_left capacity (e ∷ es) sm = left_by e sm ++ all_left capacity es (shard_step capacity e sm)

take_front-order :
    (q : List ℕ) (s : Shard) (m : Metrics)
    → q ≡ s.queue
    → s.running ≡ none
    → s.queue ≡ task_of (take_front q s m).0.running ++ (take_front q s m).0.queue
take_front-order [] s m e idle = rw idle refl
take_front-order (t ∷ ts) s m e idle = sym e

shard_step-order :
    (capacity : ℕ) (e : ShardEvent) (s : Shard) (m : Metrics)
    → s.queue ++ accepted_by capacity e (s, m)
      ≡ left_by e (s, m) ++ (shard_step capacity e (s, m)).0.queue
shard_step-order capacity (posted t) s m = unfold post_shard in ground (arith, append-nil s.queue)
shard_step-order capacity taken s m =
    unfold take_shard in ground (arith, append-nil s.queue, take_front-order s.queue s m refl)
shard_step-order capacity (finished throws) s m =
    unfold finish_shard in ground (arith, append-nil s.queue)
shard_step-order capacity (stopped drain) s m =
    unfold stop_shard in ground (arith, append-nil s.queue)

-- A worker starts its tasks in the order in which they were accepted, whenever tasks throw and the
-- shard is stopped: what was queued followed by what was accepted is what was started, or discarded
-- by a stop without draining, followed by what is still queued.
pub shard_run-order :
    (capacity : ℕ) (es : List ShardEvent) (s : Shard) (m : Metrics)
    → s.queue ++ all_accepted capacity es (s, m)
      ≡ all_left capacity es (s, m) ++ (shard_run capacity es (s, m)).0.queue
shard_run-order capacity [] s m = append-nil s.queue
shard_run-order capacity (e ∷ es) s m =
    let next = shard_step capacity e (s, m) in
    sym (append_assoc s.queue (accepted_by capacity e (s, m)) (all_accepted capacity es next))
    ∙ ap (λ q. q ++ all_accepted capacity es next) (shard_step-order capacity e s m)
    ∙ append_assoc (left_by e (s, m)) next.0.queue (all_accepted capacity es next)
    ∙ ap (◌++◌ (left_by e (s, m))) (shard_run-order capacity es next.0 next.1)
    ∙ sym (
        append_assoc (left_by e (s, m)) (all_left capacity es next)
          (shard_run capacity es next).0.queue)
