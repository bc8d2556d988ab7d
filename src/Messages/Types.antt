-- ===== src/Messages/Types.antt =====
-- common/ChatMessageTypes.h: the text message that the service, the table and the delivery share.
use distributed_chat_system.Prelude.{ℤ, String, Bool, ◌&&◌, int_eq}

pub record TextMessage : Type 0 where
  pub client_message_id : String
  pub sender_uid : ℤ
  pub receiver_uid : ℤ
  pub content : String

-- The identity of a message: the key of the delivery window and the unique key of the table.
abbrev pub Key : Type 0
Key = ℤ × String

abbrev pub key : TextMessage → Key
key m = (m.sender_uid, m.client_message_id)

-- `=` of the table's collation on ids, which may ignore case.
abbrev pub Collation : Type 0
Collation = String → String → Bool

abbrev pub is_key : Collation → Key → Key → Bool
is_key like (sender, id) (sender', id') = int_eq sender sender' && like id id'
