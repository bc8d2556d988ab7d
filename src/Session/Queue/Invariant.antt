-- ===== src/Session/Queue/Invariant.antt =====
-- The send queue's accounts, its limits, and the single chain of writes.
use distributed_chat_system.Prelude.{
  ℕ, ◌+◌, ◌≤◌, ◌<◌, ◌≡◌, inl, inr, refl, ap, Bool, true, false, List, [], ◌∷◌, ◌++◌, ltb, length,
  arith, length-append, Bool-cases,
}
use distributed_chat_system.Wire.Receiver.{Frame}
use distributed_chat_system.Session.Queue.{
  SendQueue, Event, sends, starts, writes, closes, max_sendque, send_byte_limit, total_len, close,
  send, start_write, pop_front, fail_front, handle_write, step, run,
}

abbrev pub queued_bytes : List Frame → ℕ
queued_bytes [] = 0
queued_bytes (f ∷ fs) = total_len f + queued_bytes fs

abbrev pub to_ℕ : Bool → ℕ
to_ℕ true = 1
to_ℕ false = 0

queued_bytes-append :
    (fs : List Frame) (f : Frame) → queued_bytes (fs ++ f ∷ []) ≡ queued_bytes fs + total_len f
queued_bytes-append [] f = omega arith
queued_bytes-append (x ∷ fs) f = omega (arith, queued_bytes-append fs f)

-- The accounts are exact and within the limits, at most one write is under way or asked for, and a
-- queue that is not empty has one, unless the session is closed.
pub record IsValid (s : SendQueue) : Type 0 where
  pub exact : s.send_bytes ≡ queued_bytes s.send_que
  pub bytes_bounded : s.send_bytes ≤ send_byte_limit
  pub nodes_bounded : length s.send_que ≤ max_sendque
  pub single : s.posted + to_ℕ s.in_flight ≤ 1
  pub busy : 0 < s.posted + to_ℕ s.in_flight → 0 < length s.send_que
  pub alive : s.b_close ≡ false → 0 < length s.send_que → s.posted + to_ℕ s.in_flight ≡ 1

send-IsValid : (f : Frame) (s : SendQueue) → IsValid s → IsValid (send f s).0
unfolding send
send-IsValid f s v =
    ground
      (arith, queued_bytes-append s.send_que f, length-append s.send_que (f ∷ []), v.busy, v.alive)

start_write-IsValid : (s : SendQueue) → 0 < s.posted → IsValid s → IsValid (start_write s)
unfolding start_write
start_write-IsValid s p v = ground (arith, v.busy, v.alive)

pop_front-IsValid :
    (fs : List Frame) (s : SendQueue)
    → fs ≡ s.send_que
    → s.in_flight ≡ true
    → IsValid s
    → IsValid (pop_front fs s)
unfolding pop_front
pop_front-IsValid [] s e i v = v
pop_front-IsValid (f ∷ fs) s e i v = ground (arith, ap queued_bytes e, ap length e, v.busy, v.alive)

fail_front-IsValid :
    (fs : List Frame) (n : ℕ) (s : SendQueue)
    → s.in_flight ≡ true
    → IsValid s
    → IsValid (fail_front fs n s)
unfolding fail_front
fail_front-IsValid [] n s i v = ground (arith, v.busy, v.alive)
fail_front-IsValid (f ∷ fs) n s i v = ground (arith, v.busy, v.alive)

handle_write-IsValid :
    (ok : Bool) (n : ℕ) (s : SendQueue)
    → s.in_flight ≡ true
    → IsValid s
    → IsValid (handle_write ok n s)
unfolding handle_write
handle_write-IsValid true n s i v = pop_front-IsValid s.send_que s refl i v
handle_write-IsValid false n s i v = fail_front-IsValid s.send_que n s i v

close-IsValid : (s : SendQueue) → IsValid s → IsValid (close s)
unfolding close
close-IsValid s v = ground (arith, v.busy, v.alive)

step-IsValid : (s : SendQueue) (e : Event) → IsValid s → IsValid (step s e)
unfolding step
step-IsValid s (sends f) v = send-IsValid f s v
step-IsValid s starts v = elim (Bool-cases (ltb 0 s.posted)) [
  | inl p ↦ rw p (start_write-IsValid s (ground arith) v)
  | inr n ↦ rw n v
]
step-IsValid s (writes ok n) v = elim (Bool-cases s.in_flight) [
  | inl i ↦ simp i (handle_write-IsValid ok n s i v)
  | inr idle ↦ simp idle v
]
step-IsValid s closes v = close-IsValid s v

-- From a valid state on, in every order of sends, writes and closings: `_send_bytes` is exactly
-- the bytes that are queued and stays within 4 MiB, the queue stays within 1000 nodes, there is
-- never more than one write posted or in flight, and none without a node, and an open session with
-- a node has one.
pub queue_run-IsValid : (s : SendQueue) (es : List Event) → IsValid s → IsValid (run s es)
unfolding run
queue_run-IsValid s [] v = v
queue_run-IsValid s (e ∷ es) v = queue_run-IsValid (step s e) es (step-IsValid s e v)
