-- ===== src/Messages/Chat.antt =====
-- servers/chat/service/LogicSystem.cpp: the handlers of a text message request and of its
-- acknowledgement, over the tables of the database. The JSON parser is not modelled: a request is
-- what it finds in the text, or `none` where the text is no object with fields of the right kind.
-- The log and the wakeup of the receiver, which delivery does not depend on, are left out.
pub mod Laws
use distributed_chat_system.Prelude.{
  ℕ, ℤ, String, len, Bool, true, false, ◌||◌, Option, none, some, List, [], ◌∷◌, ◌==◌, ltb,
  if◌then◌else◌, length,
}
use distributed_chat_system.Messages.Types.{TextMessage, Collation}
use distributed_chat_system.Messages.Service.{
  Outcome, returned, AcceptResult, accepted, invalid_message, invalid_recipient, unavailable,
  Friendship, Persist, accept,
}
use distributed_chat_system.Messages.Table.{Faults, Row, persist, acknowledge}
use distributed_chat_system.Friends.{Tables, check_friend_relation}

-- One text of the array: its msgid and content, or `none` where it is no object with two strings.
pub record ChatRequest : Type 0 where
  pub touid : ℤ
  pub text_array : List (Option (String × String))

-- The error of a reply, of which the last may be tried again.
pub data Reply : Type 0 where
  delivery_accepted json_error uid_invalid rpc_error : Reply

pub data Answer : Type 0 where
  closed : Answer
  replied : Reply → Answer

-- The loop over the texts; `none` is its early return.
unfoldable pub messages_of : ℤ → ℤ → List (Option (String × String)) → Option (List TextMessage)
messages_of uid touid [] = some []
messages_of uid touid (none ∷ texts) = none
messages_of uid touid (some (msgid, content) ∷ texts) = elim (messages_of uid touid texts) [
  | none ↦ none
  | some ms ↦ some (
      record {
        client_message_id = msgid;
        sender_uid = uid;
        receiver_uid = touid;
        content = content;
      }
      ∷ ms)
]

-- The two callbacks that the handler hands to the service. Neither throws.
abbrev pub friendship : Faults → Tables → Friendship (List Row)
friendship f tables sender receiver rows =
    (returned (check_friend_relation f tables sender receiver), rows)

abbrev pub persistence : Collation → Faults → Persist (List Row)
persistence like g ms rows = (returned (persist like g rows ms).0, (persist like g rows ms).1)

abbrev pub reply_of : AcceptResult → Reply
reply_of accepted = delivery_accepted
reply_of invalid_message = json_error
reply_of invalid_recipient = uid_invalid
reply_of unavailable = rpc_error

-- TextChatMsgCallback for a session of this user; `f` and `g` are the faults of its two queries.
unfoldable pub text_chat_msg :
    Collation → Faults → Faults → Tables → ℤ → Option ChatRequest → List Row → Answer × List Row
unfolding messages_of
text_chat_msg like f g tables uid none rows = (closed, rows)
text_chat_msg like f g tables uid (some q) rows =
    if (length q.text_array == 0) || ltb 50 (length q.text_array)
    then (closed, rows)
    else elim (messages_of uid q.touid q.text_array) [
      | none ↦ (replied json_error, rows)
      | some ms ↦ (
        replied
            (reply_of (accept (friendship f tables) (persistence like g) uid q.touid ms rows).0),
        (accept (friendship f tables) (persistence like g) uid q.touid ms rows).1,
      )
    ]

pub record AckRequest : Type 0 where
  pub fromuid : ℤ
  pub msgids : List (Option String)

-- The loop over the ids; `none` closes the session.
unfoldable pub ids_of : List (Option String) → Option (List String)
ids_of [] = some []
ids_of (none ∷ values) = none
ids_of (some id ∷ values) =
    let rest = ids_of values in
    if (len id == 0) || ltb 128 (len id)
    then none
    else elim rest [ none ↦ none | some ids ↦ some (id ∷ ids) ]

-- What TextChatAckCallback comes to before it delivers what is pending.
pub data AckAnswer : Type 0 where
  ack_closed ack_failed ack_done : AckAnswer

unfoldable pub text_chat_ack :
    Collation → Faults → ℕ → ℤ → Option AckRequest → List Row → AckAnswer × List Row
unfolding ids_of
text_chat_ack like f now uid none rows = (ack_closed, rows)
text_chat_ack like f now uid (some q) rows =
    if (length q.msgids == 0) || ltb 50 (length q.msgids)
    then (ack_closed, rows)
    else elim (ids_of q.msgids) [
      | none ↦ (ack_closed, rows)
      | some ids ↦ (
        if (acknowledge like f now rows uid q.fromuid ids).0 then ack_done else ack_failed,
        (acknowledge like f now rows uid q.fromuid ids).1,
      )
    ]
