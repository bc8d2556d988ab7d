-- ===== src/Tests/Chat.antt =====
-- Examples for the handlers of text messages.
use distributed_chat_system.Prelude.{
  ◌≡◌, ◌⊎◌, refl, pos, true, false, none, some, List, [], ◌∷◌, arith, map, All,
}
use distributed_chat_system.Messages.Types.{TextMessage}
use distributed_chat_system.Messages.Service.Laws.{IsValidBatch}
use distributed_chat_system.Messages.Service.{accept, check_batch, is_malformed}
use distributed_chat_system.Messages.Table.{
  Faults, Row, committed, commit_reply_lost, find_row, insert_row, verify_row, persist_loop,
  commit_result, finish, persist, pending_rows,
}
use distributed_chat_system.Messages.Table.Persist.{insert_all, IsStored, Extends}
use distributed_chat_system.Tests.Messages.{byte_equal}
use distributed_chat_system.Friends.{Tables, relation_count, check_friend_relation}
use distributed_chat_system.Messages.Chat.{ChatRequest, text_chat_msg, text_chat_ack}
use distributed_chat_system.Messages.Chat.Laws.{
  text_of, IsAccepted, text_chat_msg-IsAccepted, text_chat_msg_authorized, text_chat_ack_other,
}

abbrev faultless : Faults
faultless = record {
  connected = true;
  setup_throws = false;
  throws = λ i. false;
  commit = committed;
}

abbrev losing : Faults
losing = record {
  connected = true;
  setup_throws = false;
  throws = λ i. false;
  commit = commit_reply_lost;
}

-- Users 7 and 9 are friends.
abbrev tables : Tables
tables = record {
  friends =
      record { self_id = pos 7; friend_id = pos 9; back = "" }
      ∷ record { self_id = pos 9; friend_id = pos 7; back = "" }
      ∷ [];
  applications = [];
}

abbrev request : ChatRequest
request = record { touid = pos 9; text_array = some ("a1", "hello") ∷ [] }

text_chat_msg-IsAccepted_example :
    IsAccepted byte_equal tables
      (pos 7)
      request
      []
      (text_chat_msg byte_equal faultless faultless tables (pos 7) (some request) []).1
unfolding text_chat_msg accept check_batch is_malformed check_friend_relation persist finish
    persist_loop verify_row find_row insert_row commit_result
text_chat_msg-IsAccepted_example =
    text_chat_msg-IsAccepted byte_equal faultless faultless tables (pos 7) request [] refl

text_chat_msg_authorized_example :
    ((text_chat_msg byte_equal faultless losing tables (pos 7) (some request) []).1 ≡ [])
    ⊎ ((ms : List TextMessage) × (request.text_array ≡ map text_of ms)
        × IsValidBatch (pos 7) (pos 9) ms
        × (relation_count (pos 7) (pos 9) tables.friends ≡ 2)
        × All
            (IsStored byte_equal
              (text_chat_msg byte_equal faultless losing tables (pos 7) (some request) []).1)
            ms
        × Extends byte_equal []
            (text_chat_msg byte_equal faultless losing tables (pos 7) (some request) []).1
        × ((text_chat_msg byte_equal faultless losing tables (pos 7) (some request) []).1
            ≡ insert_all byte_equal [] ms))
text_chat_msg_authorized_example =
    text_chat_msg_authorized byte_equal faultless losing tables (pos 7) request []

abbrev stored : List Row
stored =
    record {
      message = record {
        client_message_id = "a1";
        sender_uid = pos 7;
        receiver_uid = pos 9;
        content = "hello";
      };
      acknowledged_at = none;
    }
    ∷ []

-- User 5 tries to acknowledge byte_equal a message for user 9.
text_chat_ack_other_example :
    pending_rows
      (pos 9)
      (text_chat_ack byte_equal faultless 100
        (pos 5)
        (some (record { fromuid = pos 7; msgids = some "a1" ∷ [] }))
        stored).1
    ≡ pending_rows (pos 9) stored
text_chat_ack_other_example =
    text_chat_ack_other byte_equal faultless 100 (pos 5) (pos 9)
      (some (record { fromuid = pos 7; msgids = some "a1" ∷ [] })) stored (λ e. ground (arith, e))
