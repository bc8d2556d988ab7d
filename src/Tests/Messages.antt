-- ===== src/Tests/Messages.antt =====
-- Examples for the messages: the service, the table, the window and the delivery.
use distributed_chat_system.Prelude.{
  ℕ, ◌≡◌, ◌≢◌, ◌⊎◌, ◌↔◌, refl, pos, true, false, none, some, List, [], ◌∷◌, keep_if, All, arith,
  contains, pair_eq, ◌+◌, same, string_eq,
}
use distributed_chat_system.Messages.Types.{TextMessage, Collation}
use distributed_chat_system.Messages.Service.{returned, accepted, Friendship, Persist, accept}
use distributed_chat_system.Messages.Service.Laws.{IsValidBatch, accept_iff}
use distributed_chat_system.Messages.Table.{
  Row, Faults, committed, commit_refused, find_row, insert_row, verify_row, persist_loop,
  commit_result, finish, acknowledge_loop, persist, pending_rows, acknowledge,
}
use distributed_chat_system.Messages.Table.Persist.{
  IsStored, Extends, insert_all, persist-IsStored, persist_atomic,
}
use distributed_chat_system.Messages.Table.Acknowledge.{unnamed, pending-acknowledge}
use distributed_chat_system.Messages.Window.{empty_window, due, size}
use distributed_chat_system.Messages.Window.Laws.{IsValid}
use distributed_chat_system.Messages.Delivery.{Channel, DeliveryState, Counters, deliver_pending}
use distributed_chat_system.Messages.Delivery.Laws.{
  offer, IsSettled, deliver_pending-offer, deliver_pending-IsSettled,
}

-- A collation: byte by byte.
abbrev pub byte_equal : Collation
byte_equal a b = same a b

abbrev hello : TextMessage
hello = record {
  client_message_id = "a1";
  sender_uid = pos 7;
  receiver_uid = pos 9;
  content = "hello";
}

abbrev again : TextMessage
again = record {
  client_message_id = "a2";
  sender_uid = pos 7;
  receiver_uid = pos 9;
  content = "again";
}

abbrev stranger : TextMessage
stranger = record {
  client_message_id = "a3";
  sender_uid = pos 8;
  receiver_uid = pos 9;
  content = "?";
}

abbrev batch : List TextMessage
batch = hello ∷ again ∷ []

abbrev faultless : Faults
faultless = record {
  connected = true;
  setup_throws = false;
  throws = λ i. false;
  commit = committed;
}

abbrev refusing : Faults
refusing = record {
  connected = true;
  setup_throws = false;
  throws = λ i. false;
  commit = commit_refused;
}

abbrev stored : List Row
stored =
    record { message = hello; acknowledged_at = none }
    ∷ record { message = again; acknowledged_at = none }
    ∷ []

persist-IsStored_example :
    All (IsStored byte_equal (persist byte_equal faultless [] batch).1) batch
    × Extends byte_equal [] (persist byte_equal faultless [] batch).1
unfolding persist finish persist_loop verify_row find_row insert_row commit_result
persist-IsStored_example = persist-IsStored byte_equal faultless [] batch refl

persist_atomic_example :
    ((persist byte_equal refusing [] batch).1 ≡ [])
    ⊎ (All (IsStored byte_equal (persist byte_equal refusing [] batch).1) batch
        × Extends byte_equal [] (persist byte_equal refusing [] batch).1
        × ((persist byte_equal refusing [] batch).1 ≡ insert_all byte_equal [] batch)
        × (refusing.commit ≢ commit_refused))
persist_atomic_example = persist_atomic byte_equal refusing [] batch

-- The outside world is a count of the batches that were persisted; user 7 and user 9 are friends.
abbrev friends_7_9 : Friendship ℕ
friends_7_9 a b n = (returned (some true), n)

abbrev count_batches : Persist ℕ
count_batches ms n = (returned true, n + 1)

batch-IsValid : IsValidBatch (pos 7) (pos 9) batch
batch-IsValid = record {
  sender_positive = refl;
  receiver_positive = refl;
  distinct = λ e. ground (arith, e);
  not_empty = omega arith;
  not_long = omega arith;
  well_formed = (
    record {
      from = refl;
      to = refl;
      id_not_empty = omega arith;
      id_short = omega arith;
      content_not_empty = omega arith;
      content_short = omega arith;
    },
    (
      record {
        from = refl;
        to = refl;
        id_not_empty = omega arith;
        id_short = omega arith;
        content_not_empty = omega arith;
        content_short = omega arith;
      },
      tt,
    ),
  );
  small = omega arith;
}

accept_iff_example : ((accept friends_7_9 count_batches (pos 7) (pos 9) batch 0).0 ≡ accepted) ↔ (
    IsValidBatch (pos 7) (pos 9) batch
    × ((friends_7_9 (pos 7) (pos 9) 0).0 ≡ returned (some true))
    × ((count_batches batch 0).0 ≡ returned true))
accept_iff_example = accept_iff friends_7_9 count_batches (pos 7) (pos 9) batch 0

pending-acknowledge_example :
    pending_rows (pos 9) (acknowledge byte_equal faultless 100 stored (pos 9) (pos 7) ("a1" ∷ [])).1
    ≡ unnamed byte_equal (pos 9) (pos 7) ("a1" ∷ []) (pending_rows (pos 9) stored)
unfolding acknowledge finish acknowledge_loop commit_result
pending-acknowledge_example =
    pending-acknowledge byte_equal faultless 100 stored (pos 9) (pos 7) (pos 9) ("a1" ∷ []) refl

empty-IsValid : IsValid empty_window
empty-IsValid = record { distinct = tt; counted = tt }

-- A session is the list of the messages that it took; it takes all that it is offered.
abbrev open_session : Channel (List TextMessage)
open_session = record { is_closed = λ s. false; send = λ m s. (m ∷ s, true) }

abbrev fresh : DeliveryState
fresh = record { window = empty_window; next = 0; idle_seconds = 1 }

abbrev no_counts : Counters
no_counts = record { delivered = 0; retries = 0; query_failures = 0 }

deliver_pending-offer_example :
    (deliver_pending open_session 0 (some batch) fresh no_counts []).2
    ≡ offer open_session (keep_if (λ m. due fresh.window m 0) batch) []
unfolding contains
deliver_pending-offer_example =
    deliver_pending-offer open_session 0 batch fresh no_counts [] refl empty-IsValid
      (refl, (refl, tt))

deliver_pending-IsSettled_example :
    IsSettled open_session (deliver_pending open_session 0 (some batch) fresh no_counts []).0
unfolding size
deliver_pending-IsSettled_example =
    deliver_pending-IsSettled open_session 0 (some batch) fresh no_counts []
      (λ ms e. ground (arith, e))
      (record { valid = empty-IsValid; small = omega arith; paced = (omega arith, omega arith) })
