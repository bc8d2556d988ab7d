-- ===== src/Files/Store/Append.antt =====
-- EncryptedFileStore::append.
use distributed_chat_system.Prelude.{
  ℕ, zero, suc, ◌+◌, ◌-◌, ◌/◌, ◌%◌, ◌^◌, String, Bool, not, ◌||◌, Option, none, some, List, [],
  ◌++◌, lookup, insert, length, ltb, ◌==◌, list_beq, if◌then◌else◌, Result, ok, err, ◌>>=◌, ◌>>◌,
  raise_if, or_raise, nat_eq, string_eq,
}
use distributed_chat_system.Files.Store.{
  Failure, invalid_chunk, invalid_header, invalid_record, encryption_failed, conflict, not_written,
  Sodium, Store, Stream, plain_chunk_bytes, tag_bytes, skip, read_bytes, read_length, write_length,
  path_for, transfer_key, nonce_for, open_header, WriteOutcome, write_and_sync, take_lock,
}

-- What the system does in one call: whether it grants the lock, what happens to the bytes, and
-- whether the flush of a replayed record succeeds.
pub record AppendIo : Type 0 where
  pub locked : Bool
  pub writes : WriteOutcome
  pub synced : Bool

-- The loop over the confirmed records: each is full and inside the file.
unfoldable pub skip_confirmed : ℕ → ℕ → Stream → Result Failure Stream
unfolding read_length skip
skip_confirmed file_size zero header = ok header
skip_confirmed file_size (suc n) header = do
  (confirmed_size, data_start) ← read_length header
  raise_if
      (not (confirmed_size == plain_chunk_bytes)
        || ltb file_size (data_start.position + confirmed_size + tag_bytes))
      invalid_record
  skip_confirmed file_size n (skip (confirmed_size + tag_bytes) data_start)

-- What append decides to do: flush the file in which the record already is, or add the record.
pub data Plan : Type 0 where
  replay : Plan
  add : List ℕ → Plan

-- The record at the confirmed end must be the one that would be written.
unfoldable pub check_replay : ℕ → Stream → List ℕ → List ℕ → Result Failure Plan
unfolding read_length read_bytes
check_replay file_size header plaintext ciphertext = do
  (existing_size, data_start) ← read_length header
  raise_if
      (not (existing_size == length plaintext)
        || ltb (file_size - header.position) (4 + length ciphertext))
      conflict
  (existing, end) ← or_raise (read_bytes (length ciphertext) data_start) conflict
  raise_if (not (list_beq existing ciphertext)) conflict
  ok replay

-- The part of append behind the confirmed records.
unfoldable pub place_record : ℕ → List ℕ → List ℕ → Stream → Result Failure Plan
unfolding check_replay write_length
place_record file_size plaintext ciphertext header =
    if ltb header.position file_size
    then check_replay file_size header plaintext ciphertext
    else ok (add (write_length (length plaintext % 2 ^ 32) ++ ciphertext))

-- The part of append that writes. The bytes stay in the file when it then throws.
unfoldable pub write_plan : AppendIo → Store → String → List ℕ → Plan → Bool × Store
unfolding write_and_sync
write_plan io store path old replay = (io.synced, store)
write_plan io store path old (add bytes) =
    let (done, file) = write_and_sync io.writes old bytes in
    (done, record store { files = insert path file store.files })

abbrev pub old_bytes : Option (List ℕ) → List ℕ
old_bytes none = []
old_bytes (some bytes) = bytes

-- What is decided is done, or thrown.
unfoldable pub apply_plan :
    AppendIo → Store → String → ℕ → List ℕ → Result Failure Plan → Result Failure ℕ × Store
unfolding write_plan
apply_plan io store path offset plaintext (err e) = (err e, store)
apply_plan io store path offset plaintext (ok plan) =
    let (done, store') = write_plan io store path (old_bytes (lookup path store.files)) plan in
    (if done then ok ((offset + length plaintext) % 2 ^ 64) else err not_written, store')

module _ (sodium : Sodium) (master_key : List ℕ) where
  -- The part of append that reads the file.
  unfoldable pub plan_record : String → List ℕ → ℕ → List ℕ → Result Failure Plan
  unfolding open_header skip_confirmed place_record nonce_for transfer_key
  plan_record transfer_id bytes chunk_index plaintext = do
    (prefix, start) ← open_header bytes
    header ← skip_confirmed (length bytes) chunk_index start
    ciphertext ←
        or_raise
          (sodium.encrypt plaintext (nonce_for prefix chunk_index)
            (transfer_key sodium master_key transfer_id))
          encryption_failed
    place_record (length bytes) plaintext ciphertext header

  unfoldable pub plan_append : AppendIo → Store → String → ℕ → List ℕ → Result Failure Plan
  unfolding plan_record path_for take_lock
  plan_append io store transfer_id offset plaintext = do
    raise_if
        ((length plaintext == 0)
          || ltb plain_chunk_bytes (length plaintext)
          || not (offset % plain_chunk_bytes == 0))
        invalid_chunk
    path ← path_for transfer_id
    take_lock io.locked store path
    bytes ← or_raise (lookup path store.files) invalid_header
    plan_record transfer_id bytes (offset / plain_chunk_bytes) plaintext

  -- The new offset, or what is thrown, and the files.
  unfoldable pub append : AppendIo → Store → String → ℕ → List ℕ → Result Failure ℕ × Store
  unfolding plan_append apply_plan
  append io store transfer_id offset plaintext =
      apply_plan io store transfer_id offset plaintext
        (plan_append io store transfer_id offset plaintext)
