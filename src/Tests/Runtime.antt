-- ===== src/Tests/Runtime.antt =====
-- Examples for the executor, the token bucket and the choice of a server.
use distributed_chat_system.Prelude.{
  ℕ, ◌+◌, ◌*◌, ◌≡◌, ◌≤◌, ◌<◌, refl, String, Bool, true, false, some, List, [], ◌∷◌, ◌++◌, arith,
  length,
}
use distributed_chat_system.Runtime.KeyedExecutor.{
  KeyedExecutor, Metrics, Event, posts, takes, finishes, stops, ticks, new_shard, run,
}
use distributed_chat_system.Runtime.KeyedExecutor.Accounts.{accounted, accepted, IsValid}
use distributed_chat_system.Runtime.KeyedExecutor.Tally.{IsTallied, executor_run-IsValid}
use distributed_chat_system.Runtime.KeyedExecutor.Order.{
  ShardEvent, posted, taken, finished, stopped, all_accepted, all_left, shard_run, shard_run-order,
}
use distributed_chat_system.Runtime.TokenBucket.{TokenBucket, units, granted, after, granted-le}
use distributed_chat_system.Routing.{
  ServerLoad, ChatServer, Health, chosen, int_max, minimum, candidates, select_least_loaded,
  parse_count, healthy_count, healthy_servers, parse_digits, whole_count, get_chat_server,
}
use distributed_chat_system.Routing.Selection.{select_least_loaded_turn}
use distributed_chat_system.Routing.Served.{IsServed, get_chat_server-IsServed}

abbrev zero_metrics : Metrics
zero_metrics = record { queued = 0; completed = 0; rejected = 0; failures = 0; cancelled = 0 }

abbrev two_shards : KeyedExecutor
two_shards = record { capacity = 2; shards = new_shard ∷ new_shard ∷ []; metrics = zero_metrics }

abbrev script : List Event
script =
    posts 4 1
    ∷ posts 4 2
    ∷ takes 0
    ∷ posts 5 3
    ∷ finishes 0 true
    ∷ ticks 1 true
    ∷ stops 0 false
    ∷ []

executor_run-IsValid_example :
    IsValid (run two_shards script)
    × (accounted (run two_shards script).shards (run two_shards script).metrics
        ≡ accounted two_shards.shards two_shards.metrics + accepted two_shards script)
    × IsTallied two_shards script
executor_run-IsValid_example =
    executor_run-IsValid two_shards script
      (record { exact = refl; bound = (omega arith, (omega arith, tt)) })

abbrev shard_script : List ShardEvent
shard_script =
    posted 1 ∷ posted 2 ∷ taken ∷ posted 3 ∷ finished false ∷ taken ∷ posted 4 ∷ stopped false ∷ []

shard_run-order_example :
    [] ++ all_accepted 2 shard_script (new_shard, zero_metrics)
    ≡ all_left 2 shard_script (new_shard, zero_metrics)
      ++ (shard_run 2 shard_script (new_shard, zero_metrics)).0.queue
shard_run-order_example = shard_run-order 2 shard_script new_shard zero_metrics

abbrev bucket : TokenBucket
bucket = record { capacity = 2_000_000_000; rate = 1; tokens = 2_000_000_000; last = 0 }

abbrev asks : List (ℕ × ℕ)
asks = (1, 10) ∷ (1, 20) ∷ (1, 30) ∷ []

granted-le_example :
    granted bucket asks * units + 0 * 1 ≤ 2_000_000_000 + (after bucket asks).last * 1
granted-le_example = granted-le bucket asks

-- An order on names for the examples: none comes before another.
abbrev unordered : String → String → Bool
unordered a b = false

abbrev one : ServerLoad
one = record { name = "one"; connection_count = 3 }

abbrev two : ServerLoad
two = record { name = "two"; connection_count = 1 }

select_least_loaded_turn_example :
    (turn : ℕ) × (turn < length (candidates (minimum int_max (one ∷ two ∷ [])) (one ∷ two ∷ [])))
    × ((round : ℕ)
        → select_least_loaded unordered
            (one ∷ two ∷ [])
            (turn + round * length (candidates (minimum int_max (one ∷ two ∷ [])) (one ∷ two ∷ [])))
          ≡ some "two")
unfolding minimum
select_least_loaded_turn_example = select_least_loaded_turn unordered one (two ∷ []) two 1 refl refl

abbrev server_two : ChatServer
server_two = record {
  host = "10.0.0.2";
  port = "8090";
  name = "two";
  transport = "tcp";
  tls_server_name = "10.0.0.2";
  con_count = 0;
}

-- Every server has published the count 1.
abbrev health : Health
health name = some (49 ∷ [])

get_chat_server-IsServed_example :
    (server : ChatServer) × ((get_chat_server unordered health (("two", server_two) ∷ []) 0).0
      ≡ chosen server)
    × IsServed (healthy_servers health (("two", server_two) ∷ [])) (("two", server_two) ∷ []) server
unfolding healthy_servers healthy_count parse_count parse_digits whole_count
get_chat_server-IsServed_example =
    get_chat_server-IsServed unordered health (("two", server_two) ∷ []) 0 (refl, tt) two [] refl
