-- ===== src/Wire/Receiver/Stream.antt =====
-- The receiver gets back the frames that the server sent, however the stream is cut.
use mathlib.Core.List.{append_assoc}
use distributed_chat_system.Prelude.{
  ℕ, zero, suc, ◌*◌, ◌≤◌, ◌<◌, ◌≡◌, refl, ap, ◌∙◌, true, false, Option, none, some, List, [], ◌∷◌,
  ◌++◌, length, drop, arith, All, Bool-cases, inl, inr, ltb, length-append,
}
use distributed_chat_system.Wire.{from_be16, encode}
use distributed_chat_system.Wire.Bytes.{take-of_append}
use distributed_chat_system.Wire.Receiver.{
  Frame, Header, Receiver, Reading, idle_receiver, is_acceptable, take_body, take_header,
  check_header, rounds, resume, buffer_limit, on_ready_read, go_on, read_all,
}

abbrev pub header_of : Frame → Header
header_of f = record { message_id = f.id; message_len = length f.body }

-- A frame within the client's limits.
pub record IsReadable (f : Frame) : Type 0 where
  pub id_fits : f.id < 65536
  pub length_fits : length f.body < 65536
  pub acceptable : is_acceptable (header_of f) ≡ true

-- What the server puts on the wire for these frames.
abbrev pub encode_all : List Frame → List ℕ
encode_all [] = []
encode_all (f ∷ fs) = encode f.id f.body ++ encode_all fs

-- The receiver has consumed what stands before `future`, and these frames are still to come.
abbrev Awaits : Receiver → List ℕ → List Frame → Type 0
Awaits r future fs = elim r.pending [
  | none ↦ r.buffer ++ future ≡ encode_all fs
  | some h ↦
      (f : Frame) × (gs : List Frame) × (fs ≡ f ∷ gs)
      × (h ≡ header_of f)
      × (r.buffer ++ future ≡ f.body ++ encode_all gs)
]

-- The receiver can do nothing before more bytes come.
abbrev IsStuck : Receiver → Type 0
IsStuck r = elim r.pending [
  | none ↦ length r.buffer < 4
  | some h ↦ (length r.buffer < h.message_len) × (h.message_len < 65536)
]

record Progress (reading : Reading) (future : List ℕ) (fs : List Frame) : Type 0 where
  after : Receiver
  left : List Frame
  alive : reading.1 ≡ some after
  split : fs ≡ reading.0 ++ left
  awaits : Awaits after future left
  stuck : IsStuck after
  readable : All IsReadable left

length-drop-le : (n : ℕ) (xs : List ℕ) → length (drop n xs) ≤ length xs
length-drop-le zero xs = omega arith
length-drop-le (suc n) [] = omega arith
length-drop-le (suc n) (x ∷ xs) = omega (arith, length-drop-le n xs)

decode_header :
    (a b c d : ℕ) (rest : List ℕ) (f : Frame) (more : List ℕ)
    → IsReadable f
    → ◌≡◌ {A = List ℕ} (a ∷ b ∷ c ∷ d ∷ rest) (encode f.id f.body ++ more)
    → (◌≡◌ {A = Header}
        (record { message_id = from_be16 a b; message_len = from_be16 c d })
        (header_of f))
      × (rest ≡ f.body ++ more)
unfolding encode
decode_header a b c d rest f more ok e = ground (arith, ok)

module _ (future : List ℕ) (next : List ℕ → Reading) where
  take_body-Progress :
      (buffer : List ℕ) (f : Frame) (gs : List Frame)
      → ((b : List ℕ)
          → length b ≤ length buffer
          → b ++ future ≡ encode_all gs
          → Progress (next b) future gs)
      → IsReadable f
      → All IsReadable gs
      → buffer ++ future ≡ f.body ++ encode_all gs
      → Progress (take_body next (header_of f) buffer) future (f ∷ gs)
  unfolding take_body
  take_body-Progress buffer f gs step ok oks e =
      elim (Bool-cases (ltb (length buffer) (length f.body))) [
        | inl short ↦ rw short (record {
          after = record { buffer = buffer; pending = some (header_of f) };
          left = f ∷ gs;
          alive = refl;
          split = refl;
          awaits = (f, gs, refl, refl, e);
          stuck = (ground arith, ok.length_fits);
          readable = (ok, oks);
        })
        | inr enough ↦
            let cut = take-of_append buffer future f.body (encode_all gs) e (ground arith) in
            let p =
              step (drop (length f.body) buffer) (length-drop-le (length f.body) buffer) cut.1 in
            rw (enough, cut.0)
              (record {
                after = p.after;
                left = p.left;
                alive = p.alive;
                split = ap (◌∷◌ f) p.split;
                awaits = p.awaits;
                stuck = p.stuck;
                readable = p.readable;
              })
      ]

  waiting :
      (buffer : List ℕ) (fs : List Frame)
      → length buffer < 4
      → All IsReadable fs
      → buffer ++ future ≡ encode_all fs
      → Progress ([], some (record { buffer = buffer; pending = none })) future fs
  waiting buffer fs h oks e = record {
    after = record { buffer = buffer; pending = none };
    left = fs;
    alive = refl;
    split = refl;
    awaits = e;
    stuck = h;
    readable = oks;
  }

  take_header-Progress :
      (buffer : List ℕ) (fs : List Frame)
      → ((b : List ℕ) (gs : List Frame)
          → length b < length buffer
          → All IsReadable gs
          → b ++ future ≡ encode_all gs
          → Progress (next b) future gs)
      → All IsReadable fs
      → buffer ++ future ≡ encode_all fs
      → Progress (take_header next buffer) future fs
  unfolding take_header check_header
  take_header-Progress [] fs step oks e = waiting [] fs (omega arith) oks e
  take_header-Progress (a ∷ []) fs step oks e = waiting _ fs (omega arith) oks e
  take_header-Progress (a ∷ b ∷ []) fs step oks e = waiting _ fs (omega arith) oks e
  take_header-Progress (a ∷ b ∷ c ∷ []) fs step oks e = waiting _ fs (omega arith) oks e
  take_header-Progress (a ∷ b ∷ c ∷ d ∷ buffer) [] step oks e = absurd (ground arith)
  take_header-Progress (a ∷ b ∷ c ∷ d ∷ buffer) (f ∷ gs) step (ok, oks) e =
      let read = decode_header a b c d (buffer ++ future) f (encode_all gs) ok e in
      rw (read.0, check_header, ok.acceptable)
        (take_body-Progress buffer f gs (λ rest h. step rest gs (omega arith) oks) ok oks read.1)

module _ (future : List ℕ) where
  rounds-Progress :
      (fuel : ℕ) (buffer : List ℕ) (fs : List Frame)
      → length buffer < fuel
      → All IsReadable fs
      → buffer ++ future ≡ encode_all fs
      → Progress (rounds fuel buffer) future fs
  unfolding rounds
  rounds-Progress zero buffer fs h oks e = absurd (omega arith)
  rounds-Progress (suc fuel) buffer fs h oks e =
      take_header-Progress future (rounds fuel) buffer fs
        (λ rest gs lt oks' e'. rounds-Progress fuel rest gs (omega arith) oks' e') oks e

  resume-Progress :
      (pending : Option Header) (fuel : ℕ) (buffer : List ℕ) (fs : List Frame)
      → length buffer < fuel
      → All IsReadable fs
      → Awaits (record { buffer = buffer; pending = pending }) future fs
      → Progress (resume fuel (record { buffer = buffer; pending = pending })) future fs
  resume-Progress none fuel buffer fs h oks w = rounds-Progress fuel buffer fs h oks w
  resume-Progress (some hd) fuel buffer fs h oks (f, gs, e, eh, w) =
      rw (e, eh)
        (take_body-Progress future (rounds fuel) buffer f gs
          (λ rest le. rounds-Progress fuel rest gs (omega arith) (rw e at oks).1) (rw e at oks).0
          (rw e at oks).1 w)

-- The bytes that wait are fewer than the longest body.
stuck-length :
    (pending : Option Header) (buffer : List ℕ)
    → IsStuck (record { buffer = buffer; pending = pending })
    → length buffer < 65536
stuck-length none buffer h = omega arith
stuck-length (some hd) buffer h = omega arith

more-Awaits :
    (pending : Option Header) (buffer chunk future : List ℕ) (fs : List Frame)
    → Awaits (record { buffer = buffer; pending = pending }) (chunk ++ future) fs
    → Awaits (record { buffer = buffer ++ chunk; pending = pending }) future fs
more-Awaits none buffer chunk future fs e = append_assoc buffer chunk future ∙ e
more-Awaits (some hd) buffer chunk future fs (f, gs, e, eh, w) =
    (f, gs, e, eh, append_assoc buffer chunk future ∙ w)

on_ready_read-Progress :
    (r : Receiver) (chunk future : List ℕ) (fs : List Frame)
    → length chunk ≤ 192 * 1024
    → All IsReadable fs
    → IsStuck r
    → Awaits r (chunk ++ future) fs
    → Progress (on_ready_read r chunk) future fs
unfolding on_ready_read
on_ready_read-Progress r chunk future fs small oks st w =
    let within : ltb buffer_limit (length (r.buffer ++ chunk)) ≡ false =
      ground (arith, length-append r.buffer chunk, stuck-length r.pending r.buffer st) in
    rw within (
      resume-Progress future r.pending (suc (length (r.buffer ++ chunk))) (r.buffer ++ chunk) fs
        (omega arith) oks (more-Awaits r.pending r.buffer chunk future fs w))

abbrev pub concat : List (List ℕ) → List ℕ
concat [] = []
concat (c ∷ cs) = c ++ concat cs

-- With nothing to come, a receiver that is stuck awaits no frame and holds no bytes.
nothing_left :
    (pending : Option Header) (buffer : List ℕ) (fs : List Frame)
    → All IsReadable fs
    → IsStuck (record { buffer = buffer; pending = pending })
    → Awaits (record { buffer = buffer; pending = pending }) [] fs
    → (fs ≡ []) × (◌≡◌ {A = Receiver} (record { buffer = buffer; pending = pending }) idle_receiver)
unfolding encode
nothing_left none [] [] oks st w = (refl, refl)
nothing_left none [] (f ∷ gs) oks st w = absurd (ground arith)
nothing_left none (b ∷ buffer) [] oks st w = absurd (ground arith)
nothing_left none (b ∷ buffer) (f ∷ gs) oks st w =
    absurd (omega (arith, ap length w, length-append (b ∷ buffer) []))
nothing_left (some hd) buffer fs oks st (f, gs, e, eh, w) = absurd (
    omega (
      arith,
      st.0,
      ap (λ (h : Header). h.message_len) eh,
      ap length w,
      length-append buffer [],
      length-append f.body (encode_all gs),
    ))

go_on_lem :
    (next : Receiver → Reading) (reading : Reading) (after : Receiver)
    → reading.1 ≡ some after
    → go_on next reading ≡ (reading.0 ++ (next after).0, (next after).1)
unfolding go_on
go_on_lem next (fs, none) after e = cc
go_on_lem next (fs, some r) after e = ground arith

read_all-lem :
    (r : Receiver) (chunks : List (List ℕ)) (fs : List Frame)
    → All (λ c. length c ≤ 192 * 1024) chunks
    → All IsReadable fs
    → IsStuck r
    → Awaits r (concat chunks) fs
    → read_all r chunks ≡ (fs, some idle_receiver)
unfolding read_all
read_all-lem r [] fs small oks st w =
    let done = nothing_left r.pending r.buffer fs oks st w in rw (done.0, done.1)
read_all-lem r (c ∷ cs) fs small oks st w =
    let p = on_ready_read-Progress r c (concat cs) fs small.0 oks st w in
    let rest = read_all-lem p.after cs p.left small.1 p.readable p.stuck p.awaits in
    go_on_lem (λ r'. read_all r' cs) (on_ready_read r c) p.after p.alive ∙ rw (rest, ← p.split)

-- However the network cuts the stream, in reads of at most 192 KiB, the client's receiver hands over
-- exactly the frames that were encoded, in their order, and ends idle with an empty buffer. The
-- frames have an id that has a handler and a body within the limit of that id.
pub read_all-encode_all :
    (chunks : List (List ℕ)) (fs : List Frame)
    → All (λ c. length c ≤ 192 * 1024) chunks
    → All IsReadable fs
    → concat chunks ≡ encode_all fs
    → read_all idle_receiver chunks ≡ (fs, some idle_receiver)
read_all-encode_all chunks fs small oks e =
    read_all-lem idle_receiver chunks fs small oks (omega arith) e
