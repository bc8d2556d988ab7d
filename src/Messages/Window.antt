-- ===== src/Messages/Window.antt =====
-- common/DeliveryWindow.h: which pending messages were sent, how often, and when to send again.
-- A steady clock's reading is a number of nanoseconds. The ordered map is an association list.
pub mod Laws
use distributed_chat_system.Prelude.{
  ℕ, ◌+◌, ◌*◌, ◌^◌, min, Bool, true, false, not, Option, none, some, List, [], ◌∷◌, map, ◌==◌, leb,
  lookup, insert, contains, keep_if, length, pair_eq,
}
use distributed_chat_system.Messages.Types.{TextMessage, Key, key}

pub record Attempt : Type 0 where
  pub count : ℕ
  pub next : ℕ

pub record DeliveryWindow : Type 0 where
  pub attempts : List (Key × Attempt)

abbrev pub capacity : ℕ
capacity = 32

abbrev pub second : ℕ
second = 1_000_000_000

abbrev pub empty_window : DeliveryWindow
empty_window = record { attempts = [] }

-- Drops the entries of messages that are no longer pending.
unfoldable pub reconcile : DeliveryWindow → List TextMessage → DeliveryWindow
reconcile w pending = record {
  attempts = keep_if (λ entry. contains (map key pending) entry.0) w.attempts;
}

unfoldable pub due : DeliveryWindow → TextMessage → ℕ → Bool
due w message now = elim (lookup (key message) w.attempts) [
  | none ↦ true
  | some attempt ↦ leb attempt.next now
]

-- What `attempts_[key]` finds or creates.
abbrev pub attempt_or_new : Option Attempt → Attempt
attempt_or_new none = record { count = 0; next = 0 }
attempt_or_new (some attempt) = attempt

-- The wait after an attempt: 5, 10, 20, then 40 seconds.
unfoldable pub backoff : ℕ → ℕ
backoff count = 5 * 2 ^ min count 3 * second

-- The entry after one more attempt at `now`.
abbrev pub bump : Attempt → ℕ → Attempt
bump attempt now = record { count = min (attempt.count + 1) 4; next = now + backoff attempt.count }

unfoldable pub sent : DeliveryWindow → TextMessage → ℕ → DeliveryWindow × Bool
sent w message now =
    let attempt = attempt_or_new (lookup (key message) w.attempts) in
    (
      record { attempts = insert (key message) (bump attempt now) w.attempts },
      not (attempt.count == 0),
    )

unfoldable pub size : DeliveryWindow → ℕ
size w = length w.attempts
