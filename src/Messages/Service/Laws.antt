-- ===== src/Messages/Service/Laws.antt =====
-- What the text message service accepts, and when it calls the callbacks.
use distributed_chat_system.Prelude.{
  ℕ, ◌+◌, ◌≤◌, ◌<◌, ℤ, len, ◌≡◌, ◌≢◌, ◌↔◌, ◌⊎◌, refl, true, false, some, List, [], ◌∷◌, is_positive,
  int_eq_iff, length, arith, All,
}
use distributed_chat_system.Messages.Types.{TextMessage}
use distributed_chat_system.Messages.Service.{
  returned, accepted, invalid_message, invalid_recipient, is_malformed, check_batch, Friendship,
  Persist, accept,
}

-- The bytes of a batch, as a plain sum.
abbrev pub total_bytes : List TextMessage → ℕ
total_bytes [] = 0
total_bytes (m ∷ ms) = len m.client_message_id + len m.content + total_bytes ms

pub record IsWellFormed (sender receiver : ℤ) (m : TextMessage) : Type 0 where
  pub from : m.sender_uid ≡ sender
  pub to : m.receiver_uid ≡ receiver
  pub id_not_empty : 0 < len m.client_message_id
  pub id_short : len m.client_message_id ≤ 128
  pub content_not_empty : 0 < len m.content
  pub content_short : len m.content ≤ 2048

-- What the protocol allows, said without the loop.
pub record IsValidBatch (sender receiver : ℤ) (ms : List TextMessage) : Type 0 where
  pub sender_positive : is_positive sender ≡ true
  pub receiver_positive : is_positive receiver ≡ true
  pub distinct : sender ≢ receiver
  pub not_empty : 0 < length ms
  pub not_long : length ms ≤ 50
  pub well_formed : All (IsWellFormed sender receiver) ms
  pub small : total_bytes ms ≤ 8192

is_malformed→IsWellFormed :
    (s r : ℤ) (m : TextMessage) → is_malformed s r m ≡ false → IsWellFormed s r m
unfolding is_malformed
is_malformed→IsWellFormed s r m h =
    ground (arith, int_eq_iff m.sender_uid s, int_eq_iff m.receiver_uid r)

IsWellFormed→is_malformed :
    (s r : ℤ) (m : TextMessage) → IsWellFormed s r m → is_malformed s r m ≡ false
unfolding is_malformed
IsWellFormed→is_malformed s r m h =
    ground (arith, int_eq_iff m.sender_uid s, int_eq_iff m.receiver_uid r)

check_batch_sound :
    (s r : ℤ) (n : ℕ) (ms : List TextMessage)
    → n ≤ 8192
    → check_batch s r n ms ≡ true
    → All (IsWellFormed s r) ms × (n + total_bytes ms ≤ 8192)
unfolding check_batch
check_batch_sound s r n [] b h = (tt, omega arith)
check_batch_sound s r n (m ∷ ms) b h = ground (
  arith,
  is_malformed→IsWellFormed s r m,
  check_batch_sound s r (n + (len m.client_message_id + len m.content)) ms,
)

check_batch_complete :
    (s r : ℤ) (n : ℕ) (ms : List TextMessage)
    → All (IsWellFormed s r) ms
    → n + total_bytes ms ≤ 8192
    → check_batch s r n ms ≡ true
unfolding check_batch
check_batch_complete s r n [] h b = refl
check_batch_complete s r n (m ∷ ms) h b = ground (
  arith,
  IsWellFormed→is_malformed s r m h.0,
  check_batch_complete s r (n + (len m.client_message_id + len m.content)) ms h.1,
)

module _ {S : Type 0} (friendship : Friendship S) (persist : Persist S) where
  accept_sound :
      (sender receiver : ℤ) (ms : List TextMessage) (s : S)
      → (accept friendship persist sender receiver ms s).0 ≡ accepted
      → IsValidBatch sender receiver ms
        × ((friendship sender receiver s).0 ≡ returned (some true))
        × ((persist ms (friendship sender receiver s).1).0 ≡ returned true)
  unfolding accept
  accept_sound sender receiver ms s h =
      ground (arith, check_batch_sound sender receiver 0 ms, int_eq_iff sender receiver)

  accept_complete :
      (sender receiver : ℤ) (ms : List TextMessage) (s : S)
      → IsValidBatch sender receiver ms
      → (friendship sender receiver s).0 ≡ returned (some true)
      → (persist ms (friendship sender receiver s).1).0 ≡ returned true
      → (accept friendship persist sender receiver ms s).0 ≡ accepted
  unfolding accept
  accept_complete sender receiver ms s v f p =
      ground
        (arith, check_batch_complete sender receiver 0 ms v.well_formed, int_eq_iff sender receiver)

  -- A batch is accepted exactly when it is valid, the friendship query answers yes, and the
  -- persistence, run after that query, answers yes.
  pub accept_iff :
      (sender receiver : ℤ) (ms : List TextMessage) (s : S)
      → ((accept friendship persist sender receiver ms s).0 ≡ accepted) ↔ (
          IsValidBatch sender receiver ms
          × ((friendship sender receiver s).0 ≡ returned (some true))
          × ((persist ms (friendship sender receiver s).1).0 ≡ returned true))
  accept_iff sender receiver ms s =
      (accept_sound sender receiver ms s, λ h. accept_complete sender receiver ms s h.0 h.1 h.2)

  -- A batch that is not valid is answered with an error of the caller, and no callback is made:
  -- the state of the outside world is as before.
  pub accept_invalid :
      (sender receiver : ℤ) (ms : List TextMessage) (s : S)
      → ¬ IsValidBatch sender receiver ms
      → (accept friendship persist sender receiver ms s ≡ (invalid_message, s))
        ⊎ (accept friendship persist sender receiver ms s ≡ (invalid_recipient, s))
  unfolding accept
  accept_invalid sender receiver ms s n =
      ground (arith, check_batch_sound sender receiver 0 ms, int_eq_iff sender receiver, n)

  -- What an accepted batch leaves is what the persistence left.
  pub accept_state :
      (sender receiver : ℤ) (ms : List TextMessage) (s : S)
      → (accept friendship persist sender receiver ms s).0 ≡ accepted
      → (accept friendship persist sender receiver ms s).1
        ≡ (persist ms (friendship sender receiver s).1).1
  unfolding accept
  accept_state sender receiver ms s h = ground arith

  -- Whatever is answered, the state is that of before, that of after the friendship query, or, for a
  -- valid batch between friends, that of after the persistence.
  pub accept_changes :
      (sender receiver : ℤ) (ms : List TextMessage) (s : S)
      → ((accept friendship persist sender receiver ms s).1 ≡ s)
        ⊎ (((accept friendship persist sender receiver ms s).1 ≡ (friendship sender receiver s).1)
            ⊎ (IsValidBatch sender receiver ms
                × ((friendship sender receiver s).0 ≡ returned (some true))
                × ((accept friendship persist sender receiver ms s).1
                    ≡ (persist ms (friendship sender receiver s).1).1)))
  unfolding accept
  accept_changes sender receiver ms s =
      ground (arith, check_batch_sound sender receiver 0 ms, int_eq_iff sender receiver)
