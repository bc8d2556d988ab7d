-- ===== src/Session/Reader/Gate.antt =====
-- What gets through a session to the logic system.
use distributed_chat_system.Prelude.{
  ℕ, ◌≤◌, ◌<◌, ◌≡◌, ◌⊎◌, inl, inr, refl, ℤ, true, false, not, ◌||◌, Option, none, some, List, [],
  ◌∷◌, length, is_positive, arith, All, Bool-cases,
}
use distributed_chat_system.Wire.{
  msg_chat_login, max_length, is_file_transfer_message, is_client_request_message,
}
use distributed_chat_system.Wire.Receiver.{Frame, Header}
use distributed_chat_system.Session.Reader.{
  Phase, reading_head, reading_body, stopped, Reader, Completion, allowed_length, check_head,
  parse_head, on_head, Posting, on_body, Event, read, authenticates, closes, on_read, step,
  note_frame, posted,
}

-- A header that the protocol allows.
pub record IsAllowed (h : Header) : Type 0 where
  pub request : is_client_request_message h.message_id ≡ true
  pub not_empty : 0 < h.message_len
  pub not_long : h.message_len ≤ allowed_length h.message_id

-- The awaited body, if there is one, has an allowed header.
abbrev pub AwaitsAllowed : Reader → Type 0
AwaitsAllowed r = (h : Header) → r.phase ≡ reading_body h → IsAllowed h

check_head-AwaitsAllowed : (h : Header) (now : ℕ) (r : Reader) → AwaitsAllowed (check_head h now r)
unfolding check_head allowed_length
check_head-AwaitsAllowed h now r h' e = ground arith

parse_head-AwaitsAllowed :
    (bytes : List ℕ) (now : ℕ) (r : Reader) → AwaitsAllowed (parse_head bytes now r)
unfolding parse_head
parse_head-AwaitsAllowed [] now r h e = absurd (ground arith)
parse_head-AwaitsAllowed (a ∷ []) now r h e = absurd (ground arith)
parse_head-AwaitsAllowed (a ∷ b ∷ []) now r h e = absurd (ground arith)
parse_head-AwaitsAllowed (a ∷ b ∷ c ∷ []) now r h e = absurd (ground arith)
parse_head-AwaitsAllowed (a ∷ b ∷ c ∷ d ∷ rest) now r h e = check_head-AwaitsAllowed _ now r h e

on_head-AwaitsAllowed : (e : Completion) (r : Reader) → AwaitsAllowed (on_head e r)
unfolding on_head
on_head-AwaitsAllowed e r = elim (Bool-cases (e.failed || not r.registered)) [
  | inl bad ↦ rw bad (λ h p. absurd (ground arith))
  | inr good ↦ rw good (parse_head-AwaitsAllowed e.bytes e.now r)
]

on_body-AwaitsAllowed :
    (e : Completion) (p : Posting) (h : Header) (r : Reader)
    → AwaitsAllowed (record r { phase = reading_head })
    → AwaitsAllowed (on_body e p h r).0
unfolding on_body
on_body-AwaitsAllowed e p h r v h' q = absurd (ground arith)

on_read-AwaitsAllowed :
    (phase : Phase) (e : Completion) (p : Posting) (r : Reader)
    → AwaitsAllowed r
    → AwaitsAllowed (on_read phase e p r).0
unfolding on_read
on_read-AwaitsAllowed reading_head e p r v = on_head-AwaitsAllowed e r
on_read-AwaitsAllowed (reading_body h) e p r v =
    on_body-AwaitsAllowed e p h r (λ h' q. absurd (ground arith))
on_read-AwaitsAllowed stopped e p r v = v

step-AwaitsAllowed : (r : Reader) (e : Event) → AwaitsAllowed r → AwaitsAllowed (step r e).0
unfolding step
step-AwaitsAllowed r (read e p) v = on_read-AwaitsAllowed r.phase e p r v
step-AwaitsAllowed r (authenticates uid) v = v
step-AwaitsAllowed r closes v = v

-- What the logic system may rely on for a frame of a session with this user id.
pub record IsAdmitted (posting : ℤ × Frame) : Type 0 where
  pub request : is_client_request_message posting.1.id ≡ true
  pub not_file : is_file_transfer_message posting.1.id ≡ false
  pub authorized : (posting.1.id ≡ msg_chat_login) ⊎ (is_positive posting.0 ≡ true)
  pub not_empty : 0 < length posting.1.body
  pub not_long : length posting.1.body ≤ max_length

-- No read transfers more than was asked for (Chunks proves it of asyncReadLen).
abbrev pub AsksFor : Phase → ℕ → Type 0
AsksFor (reading_body h) n = n ≤ h.message_len
AsksFor _ n = Unit {0}

abbrev pub ReadsWithin : Reader → Event → Type 0
ReadsWithin r (read e p) = AsksFor r.phase (length e.bytes)
ReadsWithin r (authenticates uid) = Unit {0}
ReadsWithin r closes = Unit {0}

abbrev pub AllWithin : Reader → List Event → Type 0
AllWithin r [] = Unit {0}
AllWithin r (e ∷ es) = ReadsWithin r e × AllWithin (step r e).0 es

on_body-IsAdmitted :
    (e : Completion) (p : Posting) (h : Header) (r : Reader) (f : Frame)
    → IsAllowed h
    → length e.bytes ≤ h.message_len
    → (on_body e p h r).1 ≡ some f
    → IsAdmitted (r.user_uid, f)
unfolding on_body allowed_length
on_body-IsAdmitted e p h r f a w q = ground (arith, a)

on_read-IsAdmitted :
    (phase : Phase) (e : Completion) (p : Posting) (r : Reader) (f : Frame)
    → ((h : Header) → phase ≡ reading_body h → IsAllowed h)
    → AsksFor phase (length e.bytes)
    → (on_read phase e p r).1 ≡ some f
    → IsAdmitted (r.user_uid, f)
unfolding on_read
on_read-IsAdmitted reading_head e p r f v w q = absurd (ground arith)
on_read-IsAdmitted (reading_body h) e p r f v w q = on_body-IsAdmitted e p h r f (v h refl) w q
on_read-IsAdmitted stopped e p r f v w q = absurd (ground arith)

step-IsAdmitted :
    (r : Reader) (e : Event) (f : Frame)
    → AwaitsAllowed r
    → ReadsWithin r e
    → (step r e).1 ≡ some f
    → IsAdmitted (r.user_uid, f)
unfolding step
step-IsAdmitted r (read e p) f v w q = on_read-IsAdmitted r.phase e p r f v w q
step-IsAdmitted r (authenticates uid) f v w q = absurd (ground arith)
step-IsAdmitted r closes f v w q = absurd (ground arith)

note_frame-All :
    (uid : ℤ) (o : Option Frame) (fs : List (ℤ × Frame))
    → ((f : Frame) → o ≡ some f → IsAdmitted (uid, f))
    → All IsAdmitted fs
    → All IsAdmitted (note_frame uid o fs)
note_frame-All uid none fs h all = all
note_frame-All uid (some f) fs h all = (h f refl, all)

posted-lem :
    (r : Reader) (es : List Event) → AwaitsAllowed r → AllWithin r es → All IsAdmitted (posted r es)
unfolding posted
posted-lem r [] v w = tt
posted-lem r (e ∷ es) v w =
    note_frame-All r.user_uid (step r e).1 (posted (step r e).0 es)
      (λ f. step-IsAdmitted r e f v w.0) (posted-lem (step r e).0 es (step-AwaitsAllowed r e v) w.1)

-- Along every run of a session that starts by reading a header, and whose reads of a body transfer
-- no more than was asked for, each frame that reaches the logic system is a client request other
-- than a file transfer, has between 1 and 2048 bytes, and is a login unless the session had a
-- positive user id at that time.
pub posted-IsAdmitted :
    (r : Reader) (es : List Event)
    → r.phase ≡ reading_head
    → AllWithin r es
    → All IsAdmitted (posted r es)
posted-IsAdmitted r es start w = posted-lem r es (λ h e. absurd (ground arith)) w

on_read_closed :
    (phase : Phase) (e : Completion) (p : Posting) (r : Reader)
    → r.registered ≡ false
    → ((on_read phase e p r).1 ≡ none) × ((on_read phase e p r).0.registered ≡ false)
unfolding on_read
on_read_closed reading_head e p r h = ground arith
on_read_closed (reading_body hd) e p r h = ground arith
on_read_closed stopped e p r h = ground arith

step_closed :
    (r : Reader) (e : Event)
    → r.registered ≡ false
    → ((step r e).1 ≡ none) × ((step r e).0.registered ≡ false)
unfolding step
step_closed r (read e p) h = on_read_closed r.phase e p r h
step_closed r (authenticates uid) h = (refl, h)
step_closed r closes h = (refl, refl)

-- From a session that the server has forgotten nothing is posted, whatever is still read.
pub posted_closed : (r : Reader) (es : List Event) → r.registered ≡ false → posted r es ≡ []
unfolding posted
posted_closed r [] h = refl
posted_closed r (e ∷ es) h = let s = step_closed r e h in rw s.0 (posted_closed (step r e).0 es s.1)
