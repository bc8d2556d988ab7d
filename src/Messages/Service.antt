-- ===== src/Messages/Service.antt =====
-- common/TextMessageService.h: the acceptance of a batch of text messages.
-- The friendship query and the persistence are callbacks that may throw; both are parameters. A
-- callback acts on the state `S` of the outside world and hands the new one back.
pub mod Laws
use distributed_chat_system.Prelude.{
  ℕ, ◌+◌, ℤ, String, len, Bool, true, false, not, ◌||◌, Option, none, some, List, [], ◌∷◌, ◌==◌,
  ltb, is_positive, int_eq, if◌then◌else◌, length,
}
use distributed_chat_system.Messages.Types.{TextMessage}

-- The outcome of a call of a callback.
pub data Outcome (A : Type 0) : Type 0 where
  returned : A → Outcome A
  threw : Outcome A

pub data AcceptResult : Type 0 where
  accepted invalid_message invalid_recipient unavailable : AcceptResult

-- One message breaks the rules: a wrong party, or a field that is empty or too long.
unfoldable pub is_malformed : ℤ → ℤ → TextMessage → Bool
is_malformed sender receiver m =
    not (int_eq m.sender_uid sender)
    || not (int_eq m.receiver_uid receiver)
    || (len m.client_message_id == 0)
    || ltb 128 (len m.client_message_id)
    || (len m.content == 0)
    || ltb 2048 (len m.content)

-- The loop over the batch, with the running sum of bytes; `false` is its early return.
unfoldable pub check_batch : ℤ → ℤ → ℕ → List TextMessage → Bool
check_batch sender receiver bytes [] = true
check_batch sender receiver bytes (m ∷ ms) =
    let bytes' : ℕ = bytes + (len m.client_message_id + len m.content) in
    let rest = check_batch sender receiver bytes' ms in
    if is_malformed sender receiver m then false else (if ltb 8192 bytes' then false else rest)

abbrev pub Friendship : Type 0 → Type 0
Friendship S = ℤ → ℤ → S → Outcome (Option Bool) × S

abbrev pub Persist : Type 0 → Type 0
Persist S = List TextMessage → S → Outcome Bool × S

unfoldable pub persist_result : Outcome Bool → AcceptResult
persist_result (returned true) = accepted
persist_result (returned false) = unavailable
persist_result threw = unavailable

module _ {S : Type 0} where
  -- The `try` block: authorize, then persist.
  unfoldable pub authorize_and_persist :
      Persist S → List TextMessage → Outcome (Option Bool) → S → AcceptResult × S
  unfolding persist_result
  authorize_and_persist persist messages threw s = (unavailable, s)
  authorize_and_persist persist messages (returned none) s = (unavailable, s)
  authorize_and_persist persist messages (returned (some false)) s = (invalid_recipient, s)
  authorize_and_persist persist messages (returned (some true)) s =
      let (r, s') = persist messages s in (persist_result r, s')

  unfoldable pub accept : Friendship S → Persist S → ℤ → ℤ → List TextMessage → S → AcceptResult × S
  unfolding authorize_and_persist
  accept friendship persist sender receiver messages s =
      if not (is_positive sender) || not (is_positive receiver) || int_eq sender receiver
      then (invalid_recipient, s)
      else (if (length messages == 0) || ltb 50 (length messages)
          then (invalid_message, s)
          else (if check_batch sender receiver 0 messages
              then (let (r, s') = friendship sender receiver s in
                  authorize_and_persist persist messages r s')
              else (invalid_message, s)))
