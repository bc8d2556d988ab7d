-- ===== src/Wire/Receiver.antt =====
-- client/network/TcpMgr.cpp: the receiver of the client, which cuts a byte stream into frames.
-- A handler is the end of this model: what it would be called with is collected in order.
pub mod Stream
use distributed_chat_system.Prelude.{
  ℕ, zero, suc, ◌+◌, ◌*◌, Bool, true, false, not, ◌||◌, Option, none, some, List, [], ◌∷◌, ◌++◌,
  ◌==◌, ltb, length, take, drop, if◌then◌else◌,
}
use distributed_chat_system.Wire.{from_be16, is_one_of}

pub record Frame : Type 0 where
  pub id : ℕ
  pub body : List ℕ

-- `_b_recv_pending`, `_message_id` and `_message_len` are the fields of a header that was read and
-- whose body is awaited.
pub record Header : Type 0 where
  pub message_id : ℕ
  pub message_len : ℕ

pub record Receiver : Type 0 where
  pub buffer : List ℕ
  pub pending : Option Header

abbrev pub idle_receiver : Receiver
idle_receiver = record { buffer = []; pending = none }

-- The ids that initHandlers registers.
unfoldable pub has_handler : ℕ → Bool
has_handler = is_one_of (
    1037 ∷ 1039 ∷ 1006 ∷ 1008 ∷ 1010 ∷ 1011 ∷ 1015 ∷ 1014 ∷ 1018 ∷ 1019 ∷ 1024 ∷ 1026 ∷ 1028 ∷ 1030
    ∷ 1033 ∷ 1031 ∷ [])

unfoldable pub allowed_length : ℕ → ℕ
allowed_length id = if id == 1033 then 60 * 1024 else (if id == 1006 then 65535 else 16 * 1024)

unfoldable pub is_acceptable : Header → Bool
unfolding has_handler allowed_length
is_acceptable h = not (
    not (has_handler h.message_id)
    || (h.message_len == 0)
    || ltb (allowed_length h.message_id) h.message_len)

-- What a read of the socket leads to: the frames handed to the handlers, and the receiver that
-- waits for more bytes, or `none` where the socket was aborted.
abbrev pub Reading : Type 0
Reading = List Frame × Option Receiver

abbrev pub add_frame : Frame → Reading → Reading
add_frame f (fs, r) = (f ∷ fs, r)

-- The part of a round after the header: the body, if it is there, and the next round.
unfoldable pub take_body : (List ℕ → Reading) → Header → List ℕ → Reading
take_body next h buffer =
    let rest = next (drop h.message_len buffer) in
    if ltb (length buffer) h.message_len
    then ([], some (record { buffer = buffer; pending = some h }))
    else add_frame (record { id = h.message_id; body = take h.message_len buffer }) rest

-- The check of a header that was read.
unfoldable pub check_header : (List ℕ → Reading) → Header → List ℕ → Reading
check_header next h buffer = if is_acceptable h then take_body next h buffer else ([], none)

-- The part of a round that reads a header.
unfoldable pub take_header : (List ℕ → Reading) → List ℕ → Reading
take_header next (a ∷ b ∷ c ∷ d ∷ buffer) =
    check_header next (record { message_id = from_be16 a b; message_len = from_be16 c d }) buffer
take_header next buffer = ([], some (record { buffer = buffer; pending = none }))

-- `forever`: a round without a pending header. Each round takes five bytes or more, so more rounds
-- than bytes are never needed.
unfoldable pub rounds : ℕ → List ℕ → Reading
unfolding take_header
rounds zero buffer = ([], none)
rounds (suc fuel) buffer = take_header (rounds fuel) buffer

abbrev pub resume : ℕ → Receiver → Reading
resume fuel r = elim r.pending [
  | none ↦ rounds fuel r.buffer
  | some h ↦ take_body (rounds fuel) h r.buffer
]

abbrev pub buffer_limit : ℕ
buffer_limit = 256 * 1024

-- The readyRead handler, for the bytes that the socket has.
unfoldable pub on_ready_read : Receiver → List ℕ → Reading
on_ready_read r chunk =
    let buffer = r.buffer ++ chunk in
    if ltb buffer_limit (length buffer)
    then ([], none)
    else resume (suc (length buffer)) (record r { buffer = buffer })

-- Reads one after the other, as the network cuts the stream; an aborted socket reads no more.
unfoldable pub go_on : (Receiver → Reading) → Reading → Reading
go_on next (fs, none) = (fs, none)
go_on next (fs, some r) = let (gs, r') = next r in (fs ++ gs, r')

unfoldable pub read_all : Receiver → List (List ℕ) → Reading
read_all r [] = ([], some r)
read_all r (chunk ∷ chunks) = go_on (λ r'. read_all r' chunks) (on_ready_read r chunk)
