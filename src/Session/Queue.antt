-- ===== src/Session/Queue.antt =====
-- servers/chat/network/CSession.cpp: the bounded send queue and the chain of asynchronous writes.
-- The queue is under the session's mutex and the writes run on the socket's strand, so each
-- operation below is one atomic step. Of asio the model keeps what is outstanding: the StartWrite
-- calls that were posted, whether a write of the front node is in flight, and the bytes written.
pub mod Invariant
pub mod Order
use distributed_chat_system.Prelude.{
  ℕ, zero, suc, ◌+◌, ◌-◌, ◌*◌, ◌%◌, ◌^◌, Bool, true, false, not, ◌||◌, ◌&&◌, List, [], ◌∷◌, ◌++◌,
  ◌==◌, ltb, leb, length, take, if◌then◌else◌,
}
use distributed_chat_system.Wire.{head_total_len, encode}
use distributed_chat_system.Wire.Receiver.{Frame}

abbrev pub max_sendque : ℕ
max_sendque = 1000

abbrev pub send_byte_limit : ℕ
send_byte_limit = 4 * 1024 * 1024

-- A SendNode is kept as its id and body; its bytes are `encode`, its length counts the header.
abbrev pub total_len : Frame → ℕ
total_len f = length f.body + head_total_len

pub record SendQueue : Type 0 where
  pub b_close : Bool
  pub send_que : List Frame
  pub send_bytes : ℕ
  -- What asio holds for this session.
  pub posted : ℕ
  pub in_flight : Bool
  pub written : List ℕ
  -- The bytes of the front frame that a write which failed has transferred.
  pub cut : ℕ

abbrev pub new_queue : SendQueue
new_queue = record {
  b_close = false;
  send_que = [];
  send_bytes = 0;
  posted = 0;
  in_flight = false;
  written = [];
  cut = 0;
}

-- `a - b` on std::size_t.
abbrev pub size_sub : ℕ → ℕ → ℕ
size_sub a b = (a + 2 ^ 64 - b) % 2 ^ 64

unfoldable pub close : SendQueue → SendQueue
close s = record s { b_close = true }

unfoldable pub is_full : SendQueue → ℕ → Bool
is_full s frame_bytes =
    leb max_sendque (length s.send_que) || ltb (size_sub send_byte_limit s.send_bytes) frame_bytes

unfoldable pub send : Frame → SendQueue → SendQueue × Bool
unfolding close is_full
send f s =
    if ltb 65535 (length f.body)
    then (close s, false)
    else (if s.b_close
        then (s, false)
        else (if is_full s (total_len f) then (s, false) else (
          record s {
            send_que = s.send_que ++ f ∷ [];
            send_bytes = s.send_bytes + total_len f;
            posted = if ltb 0 (length s.send_que) then s.posted else s.posted + 1;
          },
          true,
        )))

-- A posted StartWrite runs.
unfoldable pub start_write : SendQueue → SendQueue
start_write s =
    let s' : SendQueue = record s { posted = s.posted - 1 } in
    if s.b_close || (length s.send_que == 0) then s' else record s' { in_flight = true }

-- The write of the front node ends well: HandleWrite without an error.
unfoldable pub pop_front : List Frame → SendQueue → SendQueue
pop_front [] s = s
pop_front (f ∷ fs) s = record s {
  written = s.written ++ encode f.id f.body;
  send_bytes = size_sub s.send_bytes (total_len f);
  send_que = fs;
  in_flight = not (length fs == 0) && not s.b_close;
}

-- It fails after so many bytes of the front node: HandleWrite with an error, which closes.
unfoldable pub fail_front : List Frame → ℕ → SendQueue → SendQueue
unfolding close
fail_front [] transferred s = record (close s) { in_flight = false }
fail_front (f ∷ fs) transferred s = record (close s) {
  written = s.written ++ take transferred (encode f.id f.body);
  cut = transferred;
  in_flight = false;
}

unfoldable pub handle_write : Bool → ℕ → SendQueue → SendQueue
unfolding pop_front fail_front
handle_write true transferred s = pop_front s.send_que s
handle_write false transferred s = fail_front s.send_que transferred s

-- What can happen to the sending side.
pub data Event : Type 0 where
  sends : Frame → Event
  starts : Event
  -- Whether the write ends well; otherwise the bytes it has transferred.
  writes : Bool → ℕ → Event
  closes : Event

-- A StartWrite runs only if one is posted, and a write ends only if one is in flight.
unfoldable pub step : SendQueue → Event → SendQueue
unfolding send start_write handle_write close
step s (sends f) = (send f s).0
step s starts = if ltb 0 s.posted then start_write s else s
step s (writes ok n) = if s.in_flight then handle_write ok n s else s
step s closes = close s

unfoldable pub run : SendQueue → List Event → SendQueue
run s [] = s
run s (e ∷ es) = run (step s e) es

-- The frames that `Send` accepted along a run.
unfoldable pub accepted : SendQueue → List Event → List Frame
accepted s [] = []
accepted s (sends f ∷ es) =
    let rest = accepted (step s (sends f)) es in if (send f s).1 then f ∷ rest else rest
accepted s (starts ∷ es) = accepted (step s starts) es
accepted s (writes ok n ∷ es) = accepted (step s (writes ok n)) es
accepted s (closes ∷ es) = accepted (step s closes) es
