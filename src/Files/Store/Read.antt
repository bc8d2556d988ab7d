-- ===== src/Files/Store/Read.antt =====
-- EncryptedFileStore::read and sha256.
use distributed_chat_system.Prelude.{
  ℕ, zero, suc, ◌+◌, ◌-◌, ◌/◌, ◌%◌, ◌^◌, String, Bool, not, ◌||◌, Option, none, some, List, lookup,
  length, ltb, ◌==◌, if◌then◌else◌, Result, ok, err, ◌>>=◌, ◌>>◌, raise_if, or_raise, nat_eq,
  string_eq,
}
use distributed_chat_system.Files.Store.{
  Failure, invalid_offset, invalid_header, invalid_record, truncated, authentication_failed,
  buffer_too_small, Sodium, Store, Stream, plain_chunk_bytes, tag_bytes, read_bytes, read_length,
  path_for, transfer_key, nonce_for, open_header, take_lock,
}

-- One round of the loop before the part on the target: the ciphertext of a record and what is left.
unfoldable pub next_record : Stream → Result Failure (ℕ × List ℕ × Stream)
unfolding read_length read_bytes
next_record input = do
  (plain_size, data_start) ← read_length input
  raise_if ((plain_size == 0) || ltb plain_chunk_bytes plain_size) invalid_record
  (ciphertext, rest) ← or_raise (read_bytes (plain_size + tag_bytes) data_start) truncated
  ok (plain_size, ciphertext, rest)

-- The loop: the records before the target are read and left.
unfoldable pub find_record : ℕ → Stream → Result Failure (List ℕ)
unfolding next_record
find_record zero input = do (plain_size, ciphertext, rest) ← next_record input; ok ciphertext
find_record (suc n) input = do
  (plain_size, ciphertext, rest) ← next_record input
  find_record n rest

abbrev pub finish_hash :
    {State : Type 0}
    → (State → String)
    → Option (Result Failure State)
    → Option (Result Failure String)
finish_hash final_hex none = none
finish_hash final_hex (some (err e)) = some (err e)
finish_hash final_hex (some (ok state)) = some (ok (final_hex state))

module _ (sodium : Sodium) (master_key : List ℕ) where
  -- The part of read that reads the file.
  unfoldable pub read_record : String → List ℕ → ℕ → ℕ → Result Failure (List ℕ)
  unfolding open_header find_record nonce_for transfer_key
  read_record transfer_id bytes target maximum_bytes = do
    (prefix, start) ← open_header bytes
    ciphertext ← find_record target start
    plaintext ←
        or_raise
          (sodium.decrypt ciphertext (nonce_for prefix target)
            (transfer_key sodium master_key transfer_id))
          authentication_failed
    raise_if (ltb maximum_bytes (length plaintext)) buffer_too_small
    ok plaintext

  unfoldable pub read : Bool → Store → String → ℕ → ℕ → Result Failure (List ℕ)
  unfolding read_record path_for take_lock
  read locked store transfer_id offset maximum_bytes = do
    raise_if (not (offset % plain_chunk_bytes == 0) || (maximum_bytes == 0)) invalid_offset
    path ← path_for transfer_id
    take_lock locked store path
    bytes ← or_raise (lookup path store.files) invalid_header
    read_record transfer_id bytes (offset / plain_chunk_bytes) maximum_bytes

  -- The loop of sha256 over a streaming hash. The fuel is the number of rounds; `none` where it
  -- would not be enough.
  module _ {State : Type 0} (update : State → List ℕ → State) where
    unfoldable pub hash_from :
        ℕ → (ℕ → Bool) → Store → String → ℕ → ℕ → State → Option (Result Failure State)
    unfolding read
    hash_from zero locked store transfer_id total_size offset state =
        if ltb offset total_size then none else some (ok state)
    hash_from (suc n) locked store transfer_id total_size offset state =
        if ltb offset total_size
        then elim (read (locked offset) store transfer_id offset plain_chunk_bytes) [
          | err e ↦ some (err e)
          | ok chunk ↦
              hash_from n locked store transfer_id total_size
                ((offset + plain_chunk_bytes) % 2 ^ 64) (update state chunk)
        ]
        else some (ok state)

    unfoldable pub sha256 :
        State → (State → String) → (ℕ → Bool) → Store → String → ℕ → Option (Result Failure String)
    unfolding hash_from
    sha256 init final_hex locked store transfer_id total_size = finish_hash final_hex (
        hash_from ((total_size + (plain_chunk_bytes - 1)) / plain_chunk_bytes) locked store
          transfer_id total_size 0 init)
