-- ===== src/Files/Store.antt =====
-- servers/chat/files/EncryptedFileStore.cpp: the encrypted attachments on disk. A file is its bytes,
-- numbers below 256, and a stream is a position with the bytes that are left. libsodium is a
-- parameter (`Sodium`); an exception is a `Failure`.
pub mod Append
pub mod Read
pub mod Records
pub mod Lookup
pub mod Refines
pub mod Keeps
pub mod Life
pub mod Content
pub mod Place
pub mod Rounds
pub mod Acknowledged
pub mod Beginning
pub mod Found
pub mod Stable
pub mod Upload
use Prim.Native.Char.{code}
use distributed_chat_system.Prelude.{
  ℕ, zero, suc, ◌+◌, ◌*◌, ◌/◌, ◌%◌, ◌^◌, String, Bool, true, false, not, ◌||◌, ◌&&◌, Option, none,
  some, List, [], ◌∷◌, ◌++◌, ◌==◌, leb, ltb, length, take, drop, all, list_beq, contains,
  if◌then◌else◌, Result, ok, err, ◌>>=◌, ◌>>◌, raise_if, or_raise, nat_eq, string_eq,
}

pub data Failure : Type 0 where
  invalid_chunk invalid_offset invalid_id cannot_lock already_exists : Failure
  invalid_header invalid_record truncated encryption_failed conflict not_written : Failure
  authentication_failed buffer_too_small cannot_create not_removed : Failure

-- crypto_generichash of a transfer id under the master key, and crypto_aead_xchacha20poly1305_ietf
-- without additional data: plaintext or ciphertext, nonce, key.
pub record Sodium : Type 0 where
  pub generichash : String → List ℕ → List ℕ
  pub encrypt : List ℕ → List ℕ → List ℕ → Option (List ℕ)
  pub decrypt : List ℕ → List ℕ → List ℕ → Option (List ℕ)

-- A file is known by the transfer id in its name.
pub record Store : Type 0 where
  pub files : List (String × List ℕ)
  pub locks : List String

abbrev pub plain_chunk_bytes : ℕ
plain_chunk_bytes = 32 * 1024

abbrev pub tag_bytes : ℕ
tag_bytes = 16

abbrev pub header_bytes : ℕ
header_bytes = 9 + 16

-- "CHATFILE1"
abbrev pub magic : List ℕ
magic = 67 ∷ 72 ∷ 65 ∷ 84 ∷ 70 ∷ 73 ∷ 76 ∷ 69 ∷ 49 ∷ []

pub record Stream : Type 0 where
  pub position : ℕ
  pub rest : List ℕ

-- `seekg` from the current position, to a place inside the file.
unfoldable pub skip : ℕ → Stream → Stream
skip n s = record { position = s.position + n; rest = drop n s.rest }

unfoldable pub read_bytes : ℕ → Stream → Option (List ℕ × Stream)
unfolding skip
read_bytes n s = if ltb (length s.rest) n then none else some (take n s.rest, skip n s)

unfoldable pub length_at : ℕ → List ℕ → Result Failure (ℕ × Stream)
length_at position (a ∷ b ∷ c ∷ d ∷ rest) =
    ok (a * 2 ^ 24 + b * 2 ^ 16 + c * 2 ^ 8 + d, record { position = position + 4; rest = rest })
length_at position rest = err truncated

unfoldable pub read_length : Stream → Result Failure (ℕ × Stream)
unfolding length_at
read_length s = length_at s.position s.rest

unfoldable pub write_length : ℕ → List ℕ
write_length v = (v / 2 ^ 24 % 256) ∷ (v / 2 ^ 16 % 256) ∷ (v / 2 ^ 8 % 256) ∷ (v % 256) ∷ []

abbrev pub codes : String → List ℕ
codes String.[] = []
codes (String.◌∷◌ c s) = code c ∷ codes s

-- "0123456789abcdef-"
unfoldable pub is_id_char : ℕ → Bool
is_id_char c = (leb 48 c && leb c 57) || (leb 97 c && leb c 102) || (c == 45)

-- The file is `transfer_id + ".enc"` in the root directory.
unfoldable pub path_for : String → Result Failure String
unfolding is_id_char
path_for transfer_id = do
  raise_if (not (length (codes transfer_id) == 36) || not (all is_id_char (codes transfer_id)))
      invalid_id
  ok transfer_id

unfoldable pub transfer_key : Sodium → List ℕ → String → List ℕ
transfer_key sodium master_key transfer_id = sodium.generichash transfer_id master_key

-- The prefix, then the index as eight bytes, the lowest first.
unfoldable pub nonce_for : List ℕ → ℕ → List ℕ
nonce_for prefix index =
    prefix
    ++ ((index % 256)
        ∷ (index / 2 ^ 8 % 256)
        ∷ (index / 2 ^ 16 % 256)
        ∷ (index / 2 ^ 24 % 256)
        ∷ (index / 2 ^ 32 % 256)
        ∷ (index / 2 ^ 40 % 256)
        ∷ (index / 2 ^ 48 % 256)
        ∷ (index / 2 ^ 56 % 256)
        ∷ [])

-- Reading the magic and the prefix: the prefix, and the stream behind the header.
unfoldable pub open_header : List ℕ → Result Failure (List ℕ × Stream)
open_header bytes = do
  raise_if (ltb (length bytes) header_bytes || not (list_beq (take 9 bytes) magic)) invalid_header
  ok (take 16 (drop 9 bytes), record { position = header_bytes; rest = drop 16 (drop 9 bytes) })

-- What happens when bytes are written: all are durable, all are there but the flush failed, or
-- only the first of them reached the file.
pub data WriteOutcome : Type 0 where
  written unsynced : WriteOutcome
  torn : ℕ → WriteOutcome

unfoldable pub write_and_sync : WriteOutcome → List ℕ → List ℕ → Bool × List ℕ
write_and_sync written old bytes = (true, old ++ bytes)
write_and_sync unsynced old bytes = (false, old ++ bytes)
write_and_sync (torn n) old bytes = (false, old ++ take n bytes)

-- The lock of an existing lock file, unless the system refuses it.
unfoldable pub take_lock : Bool → Store → String → Result Failure (Unit {0})
take_lock granted store path = raise_if (not granted || not (contains store.locks path)) cannot_lock
