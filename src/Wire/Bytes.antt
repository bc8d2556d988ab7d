-- ===== src/Wire/Bytes.antt =====
-- Taking an encoded frame apart.
use distributed_chat_system.Prelude.{
  ℕ, ◌/◌, ◌%◌, ◌≤◌, ◌<◌, ◌≡◌, refl, List, [], ◌∷◌, ◌++◌, length, take, drop, arith,
}
use distributed_chat_system.Wire.{from_be16}

-- Reading back a 16-bit value.
pub from_be16-be16 : (v : ℕ) → v < 65536 → from_be16 (v / 256 % 256) (v % 256) ≡ v
from_be16-be16 v h = omega arith

-- A prefix of a stream that is as long as the body starts with it.
pub take-of_append :
    (buffer future body rest : List ℕ)
    → buffer ++ future ≡ body ++ rest
    → length body ≤ length buffer
    → (take (length body) buffer ≡ body) × (drop (length body) buffer ++ future ≡ rest)
take-of_append buffer future [] rest e h = (refl, e)
take-of_append [] future (b ∷ body) rest e h = absurd (omega arith)
take-of_append (a ∷ buffer) future (b ∷ body) rest e h =
    ground (arith, take-of_append buffer future body rest)
