-- ===== src/Runtime/KeyedExecutor/Tally.antt =====
-- The counters of outcomes: what each of them counts, over a run.
use distributed_chat_system.Prelude.{
  ℕ, zero, suc, ◌+◌, ◌-◌, ◌≡◌, refl, ◌||◌, List, [], ◌∷◌, leb, length, if◌then◌else◌, arith,
}
use distributed_chat_system.Runtime.KeyedExecutor.{
  Shard, Metrics, KeyedExecutor, post_shard, take_front, take_shard, finish_shard, stop_shard,
  tick_shard, on_shard, Event, posts, takes, finishes, stops, ticks, target, operation, step, run,
}
use distributed_chat_system.Runtime.KeyedExecutor.Accounts.{
  busy, IsValid, accounted, accepted, run-IsAccounted,
}

-- How much an event counts on a shard with the executor's capacity.
abbrev pub Tally : Type 0
Tally = ℕ → Event → Shard → ℕ

-- A post to a shard that is stopping or full.
abbrev pub refusals : Tally
refusals capacity (posts key task) s = if s.stopping || leb capacity (length s.queue) then 1 else 0
refusals capacity _ s = 0

-- A running task that comes to its end.
abbrev pub endings : Tally
endings capacity (finishes i throws) s = busy s
endings capacity _ s = 0

-- A running task that throws, or a tick of an idle worker that throws before its shard stops.
abbrev pub exceptions : Tally
exceptions capacity (finishes i throws) s = if throws then busy s else 0
exceptions capacity (ticks i throws) s =
    if throws then (if s.stopping then 0 else 1 - busy s) else 0
exceptions capacity _ s = 0

-- The tasks in the queue of a shard that is stopped without draining.
abbrev pub discards : Tally
discards capacity (stops i drain) s = if drain then 0 else length s.queue
discards capacity _ s = 0

abbrev pub tally_at : Tally → ℕ → Event → ℕ → List Shard → ℕ
tally_at d capacity event i [] = 0
tally_at d capacity event zero (s ∷ ss) = d capacity event s
tally_at d capacity event (suc i) (s ∷ ss) = tally_at d capacity event i ss

-- The sum over a run.
abbrev pub total : Tally → KeyedExecutor → List Event → ℕ
total d e [] = 0
total d e (event ∷ events) =
    tally_at d e.capacity event (target e event) e.shards + total d (step e event) events

-- A counter that an operation moves by the tally.
abbrev Counts : (Metrics → ℕ) → Tally → Type 0
Counts counter d =
    (e : KeyedExecutor) (event : Event) (s : Shard) (m : Metrics)
    → counter (operation e event s m).1 ≡ counter m + d e.capacity event s

module _ (counter : Metrics → ℕ) (d : Tally) (counts : Counts counter d) where
  on_shard-counts :
      (e : KeyedExecutor) (event : Event) (i : ℕ) (ss : List Shard) (m : Metrics)
      → counter (on_shard (operation e event) i ss m).1
        ≡ counter m + tally_at d e.capacity event i ss
  unfolding on_shard
  on_shard-counts e event i [] m = omega arith
  on_shard-counts e event zero (s ∷ ss) m = counts e event s m
  on_shard-counts e event (suc i) (s ∷ ss) m = on_shard-counts e event i ss m

  run-counts :
      (e : KeyedExecutor) (events : List Event)
      → counter (run e events).metrics ≡ counter e.metrics + total d e events
  unfolding run step
  run-counts e [] = omega arith
  run-counts e (event ∷ events) = omega (
    arith,
    run-counts (step e event) events,
    on_shard-counts e event (target e event) e.shards e.metrics,
  )

take_front-kept :
    (q : List ℕ) (s : Shard) (m : Metrics)
    → ((take_front q s m).1.rejected ≡ m.rejected)
      × ((take_front q s m).1.completed ≡ m.completed)
      × ((take_front q s m).1.failures ≡ m.failures)
      × ((take_front q s m).1.cancelled ≡ m.cancelled)
take_front-kept [] s m = (refl, refl, refl, refl)
take_front-kept (t ∷ ts) s m = (refl, refl, refl, refl)

-- One operation moves all four counters by their tallies.
operation-counts :
    (e : KeyedExecutor) (event : Event) (s : Shard) (m : Metrics)
    → ((operation e event s m).1.rejected ≡ m.rejected + refusals e.capacity event s)
      × ((operation e event s m).1.completed ≡ m.completed + endings e.capacity event s)
      × ((operation e event s m).1.failures ≡ m.failures + exceptions e.capacity event s)
      × ((operation e event s m).1.cancelled ≡ m.cancelled + discards e.capacity event s)
unfolding operation
operation-counts e (posts key task) s m = unfold post_shard in ground arith
operation-counts e (takes i) s m = unfold take_shard in ground (arith, take_front-kept s.queue s m)
operation-counts e (finishes i throws) s m = unfold finish_shard in ground arith
operation-counts e (stops i drain) s m = unfold stop_shard in ground arith
operation-counts e (ticks i throws) s m = unfold tick_shard in ground arith

-- The four counters are exact over a run.
pub record IsTallied (e : KeyedExecutor) (events : List Event) : Type 0 where
  pub rejected : (run e events).metrics.rejected ≡ e.metrics.rejected + total refusals e events
  pub completed : (run e events).metrics.completed ≡ e.metrics.completed + total endings e events
  pub failures : (run e events).metrics.failures ≡ e.metrics.failures + total exceptions e events
  pub cancelled : (run e events).metrics.cancelled ≡ e.metrics.cancelled + total discards e events

run-IsTallied : (e : KeyedExecutor) (events : List Event) → IsTallied e events
run-IsTallied e events = record {
  rejected =
      run-counts (λ m. m.rejected) refusals (λ a b s m. (operation-counts a b s m).0) e events;
  completed =
      run-counts (λ m. m.completed) endings (λ a b s m. (operation-counts a b s m).1) e events;
  failures =
      run-counts (λ m. m.failures) exceptions (λ a b s m. (operation-counts a b s m).2) e events;
  cancelled =
      run-counts (λ m. m.cancelled) discards (λ a b s m. (operation-counts a b s m).3) e events;
}

-- From a valid state on, in every order of posts, worker steps, ticks and stops: `queued` counts
-- exactly the tasks in the queues and no queue exceeds the capacity; the tasks that are queued,
-- running, completed or cancelled are as many as were accepted; and `rejected`, `completed`,
-- `failures` and `cancelled` have grown by exactly the refused posts, the tasks that ended, the
-- exceptions of tasks and ticks, and the tasks that a stop discarded.
pub executor_run-IsValid :
    (e : KeyedExecutor) (events : List Event)
    → IsValid e
    → IsValid (run e events)
      × (accounted (run e events).shards (run e events).metrics
          ≡ accounted e.shards e.metrics + accepted e events)
      × IsTallied e events
executor_run-IsValid e events v =
    let (valid, account) = run-IsAccounted e events v in (valid, account, run-IsTallied e events)
