-- ===== src/Session/Queue/Order.antt =====
-- The order of the bytes on the connection.
use mathlib.Core.List.{append-nil, append_assoc}
use distributed_chat_system.Prelude.{
  ℕ, zero, suc, Bool, ltb, drop, take, ◌≡◌, ◌⊎◌, inl, inr, refl, sym, subst, ap, ◌∙◌, true, false,
  List, [], ◌∷◌, ◌++◌, if◌then◌else◌, arith, Bool-cases,
}
use distributed_chat_system.Wire.{encode}
use distributed_chat_system.Wire.Receiver.{Frame}
use distributed_chat_system.Wire.Receiver.Stream.{encode_all}
use distributed_chat_system.Session.Queue.{
  SendQueue, Event, sends, starts, writes, closes, close, send, start_write, pop_front, fail_front,
  step, run, accepted,
}

-- What is not written of the queued frames, when so many bytes of the first are.
abbrev pub unsent : ℕ → List Frame → List ℕ
unsent n [] = []
unsent n (f ∷ fs) = drop n (encode f.id f.body) ++ encode_all fs

-- The bytes written and those still queued, in order.
abbrev pub stream : SendQueue → List ℕ
stream s = s.written ++ unsent s.cut s.send_que

abbrev whole_stream : SendQueue → List ℕ
whole_stream s = s.written ++ encode_all s.send_que

-- A frame is written in part only where a write has failed: then the session is closed, and no
-- write is in flight.
abbrev pub IsIntact : SendQueue → Type 0
IsIntact s = (s.cut ≡ 0) ⊎ ((s.b_close ≡ true) × (s.in_flight ≡ false))

unsent_zero : (fs : List Frame) → unsent 0 fs ≡ encode_all fs
unsent_zero [] = refl
unsent_zero (f ∷ fs) = refl

stream-whole : (s : SendQueue) → s.cut ≡ 0 → stream s ≡ whole_stream s
stream-whole s e =
    ap (λ n. s.written ++ unsent n s.send_que) e ∙ ap (◌++◌ s.written) (unsent_zero s.send_que)

encode_all-append : (fs gs : List Frame) → encode_all (fs ++ gs) ≡ encode_all fs ++ encode_all gs
encode_all-append [] gs = refl
encode_all-append (f ∷ fs) gs =
    ap (◌++◌ (encode f.id f.body)) (encode_all-append fs gs)
    ∙ sym (append_assoc (encode f.id f.body) (encode_all fs) (encode_all gs))

whole-send :
    (f : Frame) (s : SendQueue)
    → whole_stream (send f s).0 ≡ whole_stream s ++ encode_all (if (send f s).1 then f ∷ [] else [])
unfolding send close
whole-send f s = ground (
  arith,
  append-nil (whole_stream s),
  encode_all-append s.send_que (f ∷ []),
  append_assoc s.written (encode_all s.send_que) (encode_all (f ∷ [])),
)

whole-pop_front :
    (fs : List Frame) (s : SendQueue)
    → fs ≡ s.send_que
    → whole_stream (pop_front fs s) ≡ whole_stream s
unfolding pop_front
whole-pop_front [] s e = refl
whole-pop_front (f ∷ fs) s e =
    append_assoc s.written (encode f.id f.body) (encode_all fs)
    ∙ ap (λ q. s.written ++ encode_all q) e

take-drop : (n : ℕ) (bytes : List ℕ) → take n bytes ++ drop n bytes ≡ bytes
take-drop zero bytes = refl
take-drop (suc n) [] = refl
take-drop (suc n) (b ∷ bytes) = ap (◌∷◌ b) (take-drop n bytes)

-- A step that leaves the bytes, the queue and the cut.
same_stream :
    (s t : SendQueue)
    → t.cut ≡ s.cut
    → t.written ≡ s.written
    → t.send_que ≡ s.send_que
    → stream t ≡ stream s ++ []
same_stream s t c w q =
    ap (λ n. t.written ++ unsent n t.send_que) c
    ∙ ap (λ bytes. bytes ++ unsent s.cut t.send_que) w
    ∙ ap (λ fs. s.written ++ unsent s.cut fs) q
    ∙ sym (append-nil (stream s))

same_whole :
    (s t : SendQueue)
    → t.cut ≡ s.cut
    → t.written ≡ s.written
    → t.send_que ≡ s.send_que
    → s.cut ≡ 0
    → IsIntact t × (stream t ≡ whole_stream s ++ [])
same_whole s t c w q z =
    (inl (c ∙ z), same_stream s t c w q ∙ ap (λ bytes. bytes ++ []) (stream-whole s z))

start_write-same :
    (s : SendQueue)
    → ((start_write s).cut ≡ s.cut)
      × ((start_write s).written ≡ s.written)
      × ((start_write s).send_que ≡ s.send_que)
      × (s.b_close ≡ true → (start_write s).b_close ≡ true)
      × (s.b_close ≡ true → (start_write s).in_flight ≡ s.in_flight)
unfolding start_write
start_write-same s = ground arith

pop_front-cut : (fs : List Frame) (s : SendQueue) → (pop_front fs s).cut ≡ s.cut
unfolding pop_front
pop_front-cut [] s = refl
pop_front-cut (f ∷ fs) s = refl

fail_front-closed :
    (fs : List Frame) (n : ℕ) (s : SendQueue)
    → ((fail_front fs n s).b_close ≡ true) × ((fail_front fs n s).in_flight ≡ false)
unfolding fail_front close
fail_front-closed [] n s = (refl, refl)
fail_front-closed (f ∷ fs) n s = (refl, refl)

send-closed :
    (f : Frame) (s : SendQueue)
    → s.b_close ≡ true
    → ((send f s).1 ≡ false)
      × ((send f s).0.cut ≡ s.cut)
      × ((send f s).0.written ≡ s.written)
      × ((send f s).0.send_que ≡ s.send_que)
      × ((send f s).0.b_close ≡ true)
      × ((send f s).0.in_flight ≡ s.in_flight)
unfolding send close
send-closed f s closed = ground (arith, closed)

stream-fail_front :
    (fs : List Frame) (n : ℕ) (s : SendQueue)
    → fs ≡ s.send_que
    → s.cut ≡ 0
    → stream (fail_front fs n s) ≡ whole_stream s
unfolding fail_front close
stream-fail_front [] n s e z = stream-whole s z
stream-fail_front (f ∷ fs) n s e z =
    let bytes = encode f.id f.body in
    append_assoc s.written (take n bytes) (unsent n s.send_que)
    ∙ ap (λ q. s.written ++ (take n bytes ++ unsent n q)) (sym e)
    ∙ ap (◌++◌ s.written) (
        sym (append_assoc (take n bytes) (drop n bytes) (encode_all fs))
        ∙ ap (λ b. b ++ encode_all fs) (take-drop n bytes))
    ∙ ap (λ q. s.written ++ encode_all q) e

step-idle : (s : SendQueue) (ok : Bool) (n : ℕ) → s.in_flight ≡ false → step s (writes ok n) ≡ s
unfolding step
step-idle s ok n idle = ground (arith, idle)

-- While no write has failed.
whole-step :
    (s : SendQueue) (e : Event)
    → s.cut ≡ 0
    → IsIntact (step s e) × (stream (step s e) ≡ whole_stream s ++ encode_all (accepted s (e ∷ [])))
unfolding step accepted
whole-step s (sends f) z =
    let kept : (send f s).0.cut ≡ 0 = unfold send close in ground arith in
    (inl kept, stream-whole (send f s).0 kept ∙ whole-send f s)
whole-step s starts z = elim (Bool-cases (ltb 0 s.posted)) [
  | inl p ↦ let (c, w, q, _, _) = start_write-same s in rw p (same_whole s (start_write s) c w q z)
  | inr p ↦ rw p (same_whole s s refl refl refl z)
]
whole-step s (writes true n) z = elim (Bool-cases s.in_flight) [
  | inl flies ↦
      let kept = pop_front-cut s.send_que s ∙ z in
      simp flies (
        inl kept,
        stream-whole (pop_front s.send_que s) kept
            ∙ whole-pop_front s.send_que s refl
            ∙ sym (append-nil (whole_stream s)),
      )
  | inr idle ↦
      subst
        (λ (t : SendQueue).
          IsIntact t × (stream t ≡ whole_stream s ++ encode_all (accepted s (writes true n ∷ []))))
        (sym (step-idle s true n idle)) (same_whole s s refl refl refl z)
]
whole-step s (writes false n) z = elim (Bool-cases s.in_flight) [
  | inl flies ↦ simp flies (
    inr (fail_front-closed s.send_que n s),
    stream-fail_front s.send_que n s refl z ∙ sym (append-nil (whole_stream s)),
  )
  | inr idle ↦
      subst
        (λ (t : SendQueue).
          IsIntact t × (stream t ≡ whole_stream s ++ encode_all (accepted s (writes false n ∷ []))))
        (sym (step-idle s false n idle)) (same_whole s s refl refl refl z)
]
whole-step s closes z = unfold close in same_whole s (close s) refl refl refl z

-- After a write has failed.
closed-step :
    (s : SendQueue) (e : Event)
    → s.b_close ≡ true
    → s.in_flight ≡ false
    → IsIntact (step s e) × (stream (step s e) ≡ stream s ++ encode_all (accepted s (e ∷ [])))
unfolding step accepted
closed-step s (sends f) closed idle =
    let (refused, c, w, q, shut, rests) = send-closed f s closed in
    (
      inr (shut, rests ∙ idle),
      same_stream s (send f s).0 c w q
          ∙ ap (λ (b : Bool). stream s ++ encode_all (if b then f ∷ [] else [])) (sym refused),
    )
closed-step s starts closed idle = elim (Bool-cases (ltb 0 s.posted)) [
  | inl p ↦
      let (c, w, q, shut, rests) = start_write-same s in
      rw p (inr (shut closed, rests closed ∙ idle), same_stream s (start_write s) c w q)
  | inr p ↦ rw p (inr (closed, idle), same_stream s s refl refl refl)
]
closed-step s (writes ok n) closed idle =
    subst
      (λ (t : SendQueue).
        IsIntact t × (stream t ≡ stream s ++ encode_all (accepted s (writes ok n ∷ []))))
      (sym (step-idle s ok n idle)) (inr (closed, idle), same_stream s s refl refl refl)
closed-step s closes closed idle =
    unfold close in (inr (refl, idle), same_stream s (close s) refl refl refl)

stream-step :
    (s : SendQueue) (e : Event)
    → IsIntact s
    → IsIntact (step s e) × (stream (step s e) ≡ stream s ++ encode_all (accepted s (e ∷ [])))
stream-step s e (inl z) =
    let (kept, moved) = whole-step s e z in
    (kept, moved ∙ ap (λ bytes. bytes ++ encode_all (accepted s (e ∷ []))) (sym (stream-whole s z)))
stream-step s e (inr (closed, idle)) = closed-step s e closed idle

accepted-cons :
    (s : SendQueue) (e : Event) (es : List Event)
    → accepted s (e ∷ es) ≡ accepted s (e ∷ []) ++ accepted (step s e) es
unfolding accepted
accepted-cons s (sends f) es = elim (Bool-cases (send f s).1) [ inl y ↦ rw y | inr n ↦ rw n ]
accepted-cons s starts es = refl
accepted-cons s (writes ok n) es = refl
accepted-cons s closes es = refl

-- From a state in which no frame is written in part, or which is closed with no write in flight: in
-- every order of events, and wherever a write fails, the bytes written followed by those still
-- queued are those of before followed by the accepted frames, whole and in the order in which `Send`
-- accepted them; a frame is written in part only by a write that failed, after which the session is
-- closed and none is in flight.
pub stream-run :
    (s : SendQueue) (es : List Event)
    → IsIntact s
    → IsIntact (run s es) × (stream (run s es) ≡ stream s ++ encode_all (accepted s es))
unfolding run
stream-run s [] w = (w, unfold accepted in sym (append-nil (stream s)))
stream-run s (e ∷ es) w =
    let (kept, moved) = stream-step s e w in
    let (whole, rest) = stream-run (step s e) es kept in
    (
      whole,
      rest
          ∙ rw
              (
                moved,
                accepted-cons s e es,
                encode_all-append (accepted s (e ∷ [])) (accepted (step s e) es),
              )
              (append_assoc (stream s) (encode_all (accepted s (e ∷ [])))
                (encode_all (accepted (step s e) es))),
    )
