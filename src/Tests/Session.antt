-- ===== src/Tests/Session.antt =====
-- Examples for the connection: the client's receiver, the send queue and the reader of a session.
use distributed_chat_system.Prelude.{
  inl, ℕ, ◌≡◌, refl, pos, true, false, some, List, [], ◌∷◌, ◌++◌, All, arith,
}
use distributed_chat_system.Wire.{encode, is_file_transfer_message, is_client_request_message}
use distributed_chat_system.Wire.Receiver.{
  Frame, idle_receiver, is_acceptable, has_handler, allowed_length, read_all,
}
use distributed_chat_system.Wire.Receiver.Stream.{read_all-encode_all}
use distributed_chat_system.Wire.Receiver.Stream.{encode_all}
use distributed_chat_system.Session.Queue.{
  Event, sends, starts, writes, closes, new_queue, run, accepted,
}
use distributed_chat_system.Session.Queue.Invariant.{IsValid, queue_run-IsValid}
use distributed_chat_system.Session.Queue.Order.{stream, IsIntact, stream-run}
use distributed_chat_system.Session.Reader.{
  Reader, Event as ReaderEvent, Completion, Posting, read, reading_head, posted, step, on_read,
  on_head, parse_head, check_head, charge, allowed_length as reader_allowed_length,
}
use distributed_chat_system.Session.Reader.Gate.{IsAdmitted, posted-IsAdmitted}
use distributed_chat_system.Session.Reader.Chunks.{Chunk}
use distributed_chat_system.Runtime.TokenBucket.{TokenBucket, consume, refill}

abbrev pong : Frame
pong = record { id = 1024; body = 123 ∷ 125 ∷ [] }

-- The frame cut in the middle of its header and of its body.
abbrev chunks : List (List ℕ)
chunks = (4 ∷ 0 ∷ 0 ∷ []) ∷ (2 ∷ 123 ∷ []) ∷ (125 ∷ []) ∷ []

read_all-encode_all_example : read_all idle_receiver chunks ≡ (pong ∷ [], some idle_receiver)
unfolding encode is_acceptable has_handler allowed_length is_file_transfer_message
read_all-encode_all_example =
    read_all-encode_all chunks (pong ∷ []) (omega arith, (omega arith, (omega arith, tt)))
      (record { id_fits = omega arith; length_fits = omega arith; acceptable = refl }, tt) refl

abbrev script : List Event
script = sends pong ∷ starts ∷ sends pong ∷ writes true 0 ∷ starts ∷ closes ∷ writes false 2 ∷ []

queue_run-IsValid_example : IsValid (run new_queue script)
queue_run-IsValid_example = queue_run-IsValid new_queue script (record {
  exact = refl;
  bytes_bounded = omega arith;
  nodes_bounded = omega arith;
  single = omega arith;
  busy = λ h. omega (arith, h);
  alive = λ h k. omega (arith, k);
})

stream-run_example :
    IsIntact (run new_queue script)
    × (stream (run new_queue script) ≡ stream new_queue ++ encode_all (accepted new_queue script))
stream-run_example = stream-run new_queue script (inl refl)

abbrev full_bucket : TokenBucket
full_bucket = record { capacity = 20_000_000_000; rate = 10; tokens = 20_000_000_000; last = 0 }

abbrev new_reader : Reader
new_reader = record {
  phase = reading_head;
  user_uid = pos 0;
  registered = true;
  chat_requests = full_bucket;
  file_requests = full_bucket;
  file_bytes = full_bucket;
}

abbrev got : List ℕ → Completion
got bytes = record { failed = false; bytes = bytes; now = 1 }

abbrev accepting : Posting
accepting = record { logic_accepts = true; index = 0; worker_accepts = true }

-- A login request of two bytes.
abbrev login : List ReaderEvent
login = read (got (3 ∷ 237 ∷ 0 ∷ 2 ∷ [])) accepting ∷ read (got (123 ∷ 125 ∷ [])) accepting ∷ []

posted-IsAdmitted_example : All IsAdmitted (posted new_reader login)
unfolding step on_read on_head parse_head check_head charge reader_allowed_length consume refill
    is_file_transfer_message is_client_request_message
posted-IsAdmitted_example = posted-IsAdmitted new_reader login refl (tt, (omega arith, tt))

abbrev forgotten : Reader
forgotten = record new_reader { registered = false }

abbrev four_bytes : List ℕ
four_bytes = 3 ∷ 237 ∷ 0 ∷ 2 ∷ []

abbrev two_turns : List Chunk
two_turns =
    record { failed = false; got = 3 ∷ 237 ∷ [] } ∷ record { failed = false; got = 0 ∷ 2 ∷ [] } ∷ []
