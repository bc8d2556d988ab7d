-- ===== src/Session/Reader.antt =====
-- servers/chat/network/CSession.cpp: the reading side of a session, from the bytes of the socket to
-- the frames that are posted to the logic system. One read is outstanding at a time: of a header or
-- of a body. The session's entry in the server's table (CServer.cpp) is the flag `registered`.
pub mod Gate
pub mod Chunks
use distributed_chat_system.Prelude.{
  ℕ, zero, suc, ◌+◌, ℤ, Bool, true, false, not, ◌||◌, ◌&&◌, Option, none, some, List, [], ◌∷◌, ◌++◌,
  ◌==◌, ltb, leb, length, if◌then◌else◌, is_positive,
}
use distributed_chat_system.Wire.{
  msg_chat_login, head_total_len, max_length, max_file_frame_length, is_file_transfer_message,
  is_client_request_message, from_be16,
}
use distributed_chat_system.Wire.Receiver.{Frame, Header}
use distributed_chat_system.Runtime.TokenBucket.{TokenBucket, consume}

-- Which read is outstanding.
pub data Phase : Type 0 where
  reading_head : Phase
  reading_body : Header → Phase
  stopped : Phase

pub record Reader : Type 0 where
  pub phase : Phase
  pub user_uid : ℤ
  pub registered : Bool
  pub chat_requests : TokenBucket
  pub file_requests : TokenBucket
  pub file_bytes : TokenBucket

-- How a read ended: with an error or not, the bytes it got, and the time.
pub record Completion : Type 0 where
  pub failed : Bool
  pub bytes : List ℕ
  pub now : ℕ

-- Close: no further read is started, and the server forgets the session.
abbrev pub close : Reader → Reader
close r = record r { phase = stopped; registered = false }

unfoldable pub allowed_length : ℕ → ℕ
allowed_length id = if is_file_transfer_message id then max_file_frame_length else max_length

-- The budgets that one request of this id and length draws on. `&&` does not draw on the second
-- where the first refuses.
unfoldable pub charge : Header → ℕ → Reader → Reader × Bool
charge h now r =
    let (requests, ok) = consume r.file_requests 1 now in
    let (bytes, ok') = consume r.file_bytes (h.message_len + head_total_len) now in
    let (chat, ok'') = consume r.chat_requests 1 now in
    if is_file_transfer_message h.message_id
    then (if ok
        then (record r { file_requests = requests; file_bytes = bytes }, ok')
        else (record r { file_requests = requests }, false))
    else (record r { chat_requests = chat }, ok'')

-- The checks of a header that was read whole.
unfoldable pub check_head : Header → ℕ → Reader → Reader
unfolding allowed_length
check_head h now r =
    if not (is_client_request_message h.message_id)
    then close r
    else (if (h.message_len == 0) || ltb (allowed_length h.message_id) h.message_len
        then close r
        else (let (r', ok) = charge h now r in
            if ok then record r' { phase = reading_body h } else close r'))

-- The handler of AsyncReadHead.
unfoldable pub parse_head : List ℕ → ℕ → Reader → Reader
parse_head (a ∷ b ∷ c ∷ d ∷ rest) now r =
    check_head (record { message_id = from_be16 a b; message_len = from_be16 c d }) now r
parse_head short now r = close r

unfoldable pub on_head : Completion → Reader → Reader
unfolding parse_head check_head
on_head e r = if e.failed || not r.registered then close r else parse_head e.bytes e.now r

-- What the logic system answers when a frame is posted: PostMsgToQueue for a chat frame, and for a
-- frame of a file transfer PostMsgToFileQue with the hash of the session id.
pub record Posting : Type 0 where
  pub logic_accepts : Bool
  pub index : ℕ
  pub worker_accepts : Bool

-- LogicSystem::PostMsgToFileQue, for so many workers. The index is not negative here.
unfoldable pub post_msg_to_file_que : ℕ → ℕ → Bool → Bool
post_msg_to_file_que workers index worker_accepts =
    if leb workers index then false else worker_accepts

-- LogicSystem's constructor starts no workers.
abbrev pub worker_count : ℕ
worker_count = 0

-- The end of the handler of AsyncReadBody: what is posted, and the next read.
unfoldable pub post_frame : Posting → Frame → Reader → Reader × Option Frame
unfolding post_msg_to_file_que
post_frame p f r =
    if not (f.id == msg_chat_login) && not (is_positive r.user_uid)
    then (close r, none)
    else (if is_file_transfer_message f.id
        then (if post_msg_to_file_que worker_count p.index p.worker_accepts
            then (record r { phase = reading_head }, some f)
            else (close r, none))
        else (if p.logic_accepts
            then (record r { phase = reading_head }, some f)
            else (close r, none)))

unfoldable pub on_body : Completion → Posting → Header → Reader → Reader × Option Frame
unfolding post_frame
on_body e p h r =
    if e.failed || ltb (length e.bytes) h.message_len || not r.registered
    then (close r, none)
    else post_frame p (record { id = h.message_id; body = e.bytes }) r

-- What can happen: the outstanding read ends, the logic system authenticates the session, or it (or a
-- timer, or the server) closes it.
pub data Event : Type 0 where
  read : Completion → Posting → Event
  authenticates : ℤ → Event
  closes : Event

unfoldable pub on_read : Phase → Completion → Posting → Reader → Reader × Option Frame
unfolding on_head on_body
on_read reading_head e p r = (on_head e r, none)
on_read (reading_body h) e p r = on_body e p h r
on_read stopped e p r = (r, none)

-- A close from outside leaves the outstanding read to end by itself.
unfoldable pub step : Reader → Event → Reader × Option Frame
unfolding on_read
step r (read e p) = on_read r.phase e p r
step r (authenticates uid) = (record r { user_uid = uid }, none)
step r closes = (record r { registered = false }, none)

-- The frames that are posted along a run, each with the user id of the session at that time.
abbrev pub note_frame : ℤ → Option Frame → List (ℤ × Frame) → List (ℤ × Frame)
note_frame uid none fs = fs
note_frame uid (some f) fs = (uid, f) ∷ fs

unfoldable pub posted : Reader → List Event → List (ℤ × Frame)
posted r [] = []
posted r (e ∷ es) = note_frame r.user_uid (step r e).1 (posted (step r e).0 es)
