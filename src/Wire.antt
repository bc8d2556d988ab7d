-- ===== src/Wire.antt =====
-- The frames of the chat connection: message ids (servers/chat/core/const.h), the frame that the
-- server sends (servers/chat/network/MsgNode.cpp), the header that it reads
-- (servers/chat/network/CSession.cpp) and the client's receiver (client/network/TcpMgr.cpp).
pub mod Bytes
pub mod Receiver
use distributed_chat_system.Prelude.{
  ℕ, ◌+◌, ◌*◌, ◌/◌, ◌%◌, Bool, true, false, ◌||◌, ◌&&◌, Option, none, some, List, [], ◌∷◌, ◌++◌,
  ◌==◌, leb, length,
}

abbrev pub msg_chat_login : ℕ
msg_chat_login = 1005

abbrev pub head_total_len : ℕ
head_total_len = 4

abbrev pub max_length : ℕ
max_length = 1024 * 2

abbrev pub max_file_frame_length : ℕ
max_file_frame_length = 60 * 1024

unfoldable pub is_file_transfer_message : ℕ → Bool
is_file_transfer_message id = leb 1025 id && leb id 1035

-- Whether an id is one of a list: a `switch` whose cases all return true, or a set of handlers.
abbrev pub is_one_of : List ℕ → ℕ → Bool
is_one_of [] id = false
is_one_of (x ∷ xs) id = (id == x) || is_one_of xs id

unfoldable pub is_client_request_message : ℕ → Bool
is_client_request_message = is_one_of (
    1005 ∷ 1007 ∷ 1009 ∷ 1013 ∷ 1017 ∷ 1020 ∷ 1023 ∷ 1036 ∷ 1038 ∷ 1025 ∷ 1027 ∷ 1029 ∷ 1032 ∷ 1034
    ∷ 1035 ∷ [])

-- A 16-bit value in network byte order. Bytes are numbers below 256.
abbrev pub be16 : ℕ → List ℕ
be16 v = (v / 256 % 256) ∷ (v % 256) ∷ []

abbrev pub from_be16 : ℕ → ℕ → ℕ
from_be16 hi lo = hi * 256 + lo

-- SendNode: id, length (narrowed to 16 bits) and body.
unfoldable pub encode : ℕ → List ℕ → List ℕ
encode id body = be16 (id % 65536) ++ (be16 (length body % 65536) ++ body)
