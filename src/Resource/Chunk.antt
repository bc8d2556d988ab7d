-- ===== src/Resource/Chunk.antt =====
-- Service::chunk: a body of up to eight pieces, each checked against what is stored or appended.
use distributed_chat_system.Prelude.{
  ℕ, zero, suc, ◌+◌, ◌-◌, ◌*◌, ◌/◌, ◌%◌, ℤ, Bool, true, false, not, ◌||◌, ◌&&◌, String, List, [],
  ◌∷◌, ◌==◌, int_eq, ltb, leb, length, take, drop, keep_if, same, list_beq, Result, ok, err, ◌>>=◌,
  ◌>>◌, raise_if, nat_eq, string_eq,
}
use distributed_chat_system.Messages.Table.{CommitOutcome, commit_result}
use distributed_chat_system.Files.Types.{Transfer, is_uploading}
use distributed_chat_system.Files.Table.{update_where}
use distributed_chat_system.Files.Store.{Sodium, Store, plain_chunk_bytes}
use distributed_chat_system.Files.Store.Append.{AppendIo, append}
use distributed_chat_system.Files.Store.Read.{read}
use distributed_chat_system.Resource.{
  Problem, error, offset_conflict, internal, require, valid_id, file, is_expired,
}

-- What the system and the database do in one round.
pub record RoundIo : Type 0 where
  pub read_locked : Bool
  pub appends : AppendIo
  pub now : ℕ
  pub update : CommitOutcome

pub record ChunkIo : Type 0 where
  pub locked : Bool
  pub leased : Bool
  pub now : ℕ
  pub rounds : ℕ → RoundIo

-- The parts of a body: `count` bytes from each `at`.
unfoldable pub parts : ℕ → List ℕ → List (List ℕ)
parts zero bytes = []
parts (suc n) bytes = take plain_chunk_bytes bytes ∷ parts n (drop plain_chunk_bytes bytes)

abbrev pub body_parts : List ℕ → List (List ℕ)
body_parts bytes = parts ((length bytes + (plain_chunk_bytes - 1)) / plain_chunk_bytes) bytes

-- WHERE id=? AND uploaded_size=? AND status='uploading' AND expires_at>NOW()
abbrev pub can_confirm : String → ℕ → ℕ → Transfer → Bool
can_confirm id confirmed now r =
    same r.file.id id
    && (r.file.uploaded_size == confirmed)
    && is_uploading r.file.status
    && ltb now r.expires_at

-- SET uploaded_size=?
abbrev pub confirm_row : ℕ → Transfer → Transfer
confirm_row next r = record r { file = record r.file { uploaded_size = next } }

unfoldable pub confirm : RoundIo → String → ℕ → ℕ → List Transfer → Bool × List Transfer
unfolding update_where commit_result keep_if
confirm io id confirmed next rows =
    let (told, rows') =
      commit_result io.update rows
        (update_where (can_confirm id confirmed io.now) (confirm_row next) rows) in
    (told && (length (keep_if (can_confirm id confirmed io.now) rows) == 1), rows')

abbrev pub State : Type 0
State = Store × List Transfer

-- The tests before the loop.
unfoldable pub check_chunk :
    ChunkIo → ℤ → String → ℕ → List ℕ → List Transfer → Result Problem Transfer
unfolding file
check_chunk io uid id offset bytes rows = do
  require
      (not (length bytes == 0)
        && leb (length bytes) (256 * 1024)
        && (offset % plain_chunk_bytes == 0))
      400
  raise_if (not (valid_id id) || not io.locked || not io.leased) internal
  f ← file rows id
  require (int_eq f.file.sender_uid uid) 403
  require (not (is_expired io.now f) && is_uploading f.file.status) 410
  require
      (leb offset f.file.total_size
        && leb (length bytes) (f.file.total_size - offset)
        && ((length bytes % plain_chunk_bytes == 0)
            || (offset + length bytes == f.file.total_size)))
      400
  raise_if (ltb f.file.uploaded_size offset) (offset_conflict f.file.uploaded_size)
  ok f

module _ (sodium : Sodium) (master_key : List ℕ) where
  -- The loop over the parts: the round's number, the offset of the next part and the confirmed one.
  unfoldable pub chunk_loop :
      (ℕ → RoundIo) → String → ℕ → ℕ → ℕ → List (List ℕ) → State → Result Problem ℕ × State
  unfolding read append confirm
  chunk_loop io id k at confirmed [] s = (ok confirmed, s)
  chunk_loop io id k at confirmed (part ∷ rest) (store, rows) = elim (ltb at confirmed) [
    | true ↦ elim (read sodium master_key (io k).read_locked store id at (length part)) [
      | err e ↦ (err internal, (store, rows))
      | ok previous ↦ elim (list_beq previous part) [
        | true ↦ chunk_loop io id (suc k) (at + plain_chunk_bytes) confirmed rest (store, rows)
        | false ↦ (err (error 409), (store, rows))
      ]
    ]
    | false ↦
        let (appended, store') = append sodium master_key (io k).appends store id at part in
        elim appended [
          | err e ↦ (err (error 409), (store', rows))
          | ok next ↦
              let (told, rows') = confirm (io k) id confirmed next rows in
              elim told [
                | true ↦ chunk_loop io id (suc k) (at + plain_chunk_bytes) next rest (store', rows')
                | false ↦ (err (error 503), (store', rows'))
              ]
        ]
  ]

  -- The confirmed offset that is answered, or the problem, and what is stored.
  unfoldable pub chunk : ChunkIo → ℤ → String → ℕ → List ℕ → State → Result Problem ℕ × State
  unfolding check_chunk chunk_loop parts
  chunk io uid id offset bytes (store, rows) = elim (check_chunk io uid id offset bytes rows) [
    | err e ↦ (err e, (store, rows))
    | ok f ↦ chunk_loop io.rounds id 0 offset f.file.uploaded_size (body_parts bytes) (store, rows)
  ]
