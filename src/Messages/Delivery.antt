-- ===== src/Messages/Delivery.antt =====
-- servers/chat/service/LogicSystem.{h,cpp}: delivery of the pending messages of a session.
-- The socket session is an interface: whether it is closed, and a bounded queue that may refuse a
-- message (Session.Queue fills it). The JSON that a message becomes is the session's business here.
pub mod Laws
use distributed_chat_system.Prelude.{
  ℕ, ◌+◌, ◌*◌, min, Bool, true, false, Option, none, some, List, [], ◌∷◌, ◌==◌, if◌then◌else◌,
  length,
}
use distributed_chat_system.Messages.Types.{TextMessage}
use distributed_chat_system.Messages.Window.{DeliveryWindow, second, reconcile, due, sent}

-- What the delivery needs of a session of type `S`.
pub record Channel (S : Type 0) : Type 0 where
  pub is_closed : S → Bool
  pub send : TextMessage → S → S × Bool

pub record DeliveryState : Type 0 where
  pub window : DeliveryWindow
  pub next : ℕ
  pub idle_seconds : ℕ

pub record Counters : Type 0 where
  pub delivered : ℕ
  pub retries : ℕ
  pub query_failures : ℕ

-- The wait until the next query: doubled up to 30 s while there is nothing, 1 s otherwise.
unfoldable pub next_idle : Option (List TextMessage) → ℕ → ℕ
next_idle none idle = min (idle * 2) 30
next_idle (some pending) idle = if length pending == 0 then min (idle * 2) 30 else 1

module _ {S : Type 0} (channel : Channel S) where
  -- The loop over the pending messages. A refused message ends it.
  unfoldable pub deliver_loop :
      ℕ → List TextMessage → DeliveryWindow → Counters → S → DeliveryWindow × Counters × S
  deliver_loop now [] w c s = (w, c, s)
  deliver_loop now (m ∷ ms) w c s =
      let (s', taken) = channel.send m s in
      let (w', retry) = sent w m now in
      let c' = record c {
        retries = if retry then c.retries + 1 else c.retries;
        delivered = c.delivered + 1;
      } in
      let skip = deliver_loop now ms w c s in
      let go_on = deliver_loop now ms w' c' s' in
      if due w m now then (if taken then go_on else (w, c, s')) else skip

  unfoldable pub deliver_pending :
      ℕ → Option (List TextMessage) → DeliveryState → Counters → S → DeliveryState × Counters × S
  unfolding next_idle
  deliver_pending now none d c s =
      if channel.is_closed s
      then (d, c, s)
      else (let idle = next_idle none d.idle_seconds in
          (
            record d { idle_seconds = idle; next = now + idle * second },
            record c { query_failures = c.query_failures + 1 },
            s,
          ))
  deliver_pending now (some pending) d c s =
      if channel.is_closed s
      then (d, c, s)
      else (let idle = next_idle (some pending) d.idle_seconds in
          let (w', c', s') = deliver_loop now pending (reconcile d.window pending) c s in
          (record { window = w'; idle_seconds = idle; next = now + idle * second }, c', s'))
