-- ===== src/Files/Store/Refines.antt =====
-- EncryptedFileStore::append implements the addition of a piece to a list of pieces.
use distributed_chat_system.Prelude.{
  ℕ, zero, suc, ◌+◌, ◌*◌, ◌/◌, ◌%◌, ◌^◌, ◌<◌, ◌≡◌, refl, sym, subst, ap, ◌∙◌, inl, inr, String,
  true, false, not, ◌||◌, Option, none, some, List, [], ◌∷◌, ◌++◌, length, ltb, ◌==◌, list_beq,
  lookup, lookup-insert, same, contains, All, arith, append_assoc, length-append, zero_add,
  Bool-cases, Result, ok, err, is_ok, nat_eq, string_eq,
}
use distributed_chat_system.Files.Store.{
  Failure, Sodium, Store, written, plain_chunk_bytes, header_bytes, path_for, take_lock,
  transfer_key, nonce_for,
}
use distributed_chat_system.Files.Store.Append.{
  AppendIo, Plan, replay, add, plan_record, plan_append, write_plan, apply_plan, append,
}
use distributed_chat_system.Files.Store.Records.{IsAead, IsPiece, seal_piece, records}
use distributed_chat_system.Files.Store.Lookup.{attachment, open_header-attachment, Holds}
use distributed_chat_system.Files.Store.Place.{append_piece, cons_some, Agrees, place, place-Agrees}

-- The system grants the lock, writes and flushes.
abbrev pub working : AppendIo
working = record { locked = true; writes = written; synced = true }

mod_small : (n : ℕ) → n < 2 ^ 64 → n % 2 ^ 64 ≡ n
mod_small n h = omega arith

pub same_self : (id : String) → same id id ≡ true
same_self id = (string_eq.beq_iff id id).1 refl

attachment_grown :
    (seal : List ℕ → List ℕ → List ℕ → List ℕ) (key prefix : List ℕ) (ps qs : List (List ℕ))
    (bytes : List ℕ)
    → records seal key prefix 0 qs [] ≡ records seal key prefix 0 ps [] ++ bytes
    → attachment seal key prefix ps [] ++ bytes ≡ attachment seal key prefix qs []
unfolding attachment
attachment_grown seal key prefix ps qs bytes e =
    rw (append_assoc prefix (records seal key prefix 0 ps []) bytes, e) refl

length-attachment :
    (seal : List ℕ → List ℕ → List ℕ → List ℕ) (key prefix : List ℕ) (ps : List (List ℕ))
    → length prefix ≡ 16
    → header_bytes + length (records seal key prefix 0 ps [])
      ≡ length (attachment seal key prefix ps [])
unfolding attachment
length-attachment seal key prefix ps h =
    omega (arith, length-append prefix (records seal key prefix 0 ps []))

abbrev AllPieces : Option (List (List ℕ)) → Type 0
AllPieces none = Unit
AllPieces (some qs) = All IsPiece qs

cons_some-AllPieces :
    (q : List ℕ) (o : Option (List (List ℕ))) → IsPiece q → AllPieces o → AllPieces (cons_some q o)
cons_some-AllPieces q none h rest = tt
cons_some-AllPieces q (some rs) h rest = (h, rest)

append_piece-AllPieces :
    (ps : List (List ℕ)) (i : ℕ) (p : List ℕ)
    → All IsPiece ps
    → IsPiece p
    → AllPieces (append_piece ps i p)
unfolding append_piece
append_piece-AllPieces [] zero p pieces h = (h, tt)
append_piece-AllPieces [] (suc i) p pieces h = tt
append_piece-AllPieces (r ∷ rs) zero p pieces h = elim (Bool-cases (list_beq r p)) [
  | inl t ↦ rw t pieces
  | inr f ↦ rw f tt
]
append_piece-AllPieces (r ∷ rs) (suc i) p pieces h =
    elim (Bool-cases (length r == plain_chunk_bytes)) [
      | inl t ↦ rw t (
          cons_some-AllPieces r (append_piece rs i p) pieces.0
            (append_piece-AllPieces rs i p pieces.1 h))
      | inr f ↦ rw f tt
    ]

module _ (sodium : Sodium) (aead : IsAead sodium) (master_key : List ℕ) where
  -- The attachment holds the pieces and nothing else.
  pub record HoldsExactly (store : Store) (id : String) (ps : List (List ℕ)) : Type 0 where
    pub holds : Holds sodium aead master_key store id ps
    pub no_tail : holds.tail ≡ []

  -- A refused piece is thrown and changes nothing; else the offset behind the piece is returned and
  -- the attachment holds the new pieces.
  abbrev pub Implements :
      Store → String → ℕ → Option (List (List ℕ)) → Result Failure ℕ × Store → Type 0
  Implements before id next none (r, after) = (is_ok r ≡ false) × (after ≡ before)
  Implements before id next (some qs) (r, after) = (r ≡ ok next) × HoldsExactly after id qs

  plan_append-place :
      (s : Store) (id : String) (ps : List (List ℕ)) (i : ℕ) (p prefix : List ℕ)
      → path_for id ≡ ok id
      → contains s.locks id ≡ true
      → length prefix ≡ 16
      → lookup id s.files
        ≡ some (attachment aead.seal (transfer_key sodium master_key id) prefix ps [])
      → IsPiece p
      → plan_append sodium master_key working s id (i * plain_chunk_bytes) p
        ≡ place sodium aead
            (transfer_key sodium master_key id)
            prefix
            (length (attachment aead.seal (transfer_key sodium master_key id) prefix ps []))
            i
            (record {
              position = header_bytes;
              rest = records aead.seal (transfer_key sodium master_key id) prefix 0 ps [];
            })
            p
            (seal_piece aead.seal (transfer_key sodium master_key id) prefix i p)
  unfolding plan_append plan_record take_lock place seal_piece
  plan_append-place s id ps i p prefix path lock size stored h =
      let key = transfer_key sodium master_key id in
      rw
        (
          guarded,
          path,
          lock,
          stored,
          index,
          open_header-attachment aead.seal key prefix ps [] size,
          aead.encrypts p (nonce_for prefix i) key h.bounded,
        )
        refl
    where
      guarded :
          ((length p == 0)
            || ltb plain_chunk_bytes (length p)
            || not ((i * plain_chunk_bytes) % plain_chunk_bytes == 0))
          ≡ false
      guarded = ground (arith, h.some_bytes, h.bounded)

      index : (i * plain_chunk_bytes) / plain_chunk_bytes ≡ i
      index = omega arith

  exact_bytes :
      (s : Store) (id : String) (ps : List (List ℕ)) (h : HoldsExactly s id ps)
      → lookup id s.files
        ≡ some (attachment aead.seal (transfer_key sodium master_key id) h.holds.prefix ps [])
  exact_bytes s id ps h =
      h.holds.stored
      ∙ ap
          (λ t. some (attachment aead.seal (transfer_key sodium master_key id) h.holds.prefix ps t))
          h.no_tail

  apply_plan-Implements :
      (s : Store) (id : String) (ps : List (List ℕ)) (offset : ℕ) (p : List ℕ)
      (o : Option (List (List ℕ))) (r : Result Failure Plan) (h : HoldsExactly s id ps)
      → AllPieces o
      → offset + length p < 2 ^ 64
      → Agrees sodium aead (transfer_key sodium master_key id) h.holds.prefix 0 ps o r
      → Implements s id (offset + length p) o (apply_plan working s id offset p r)
  unfolding apply_plan write_plan
  apply_plan-Implements s id ps offset p none (ok plan) h pieces small agrees = ground arith
  apply_plan-Implements s id ps offset p none (err e) h pieces small agrees = (refl, refl)
  apply_plan-Implements s id ps offset p (some qs) (err e) h pieces small agrees = absurd agrees
  apply_plan-Implements s id ps offset p (some qs) (ok replay) h pieces small agrees =
      (ap ok (mod_small (offset + length p) small), subst (HoldsExactly s id) (sym agrees) h)
  apply_plan-Implements s id ps offset p (some qs) (ok (add bytes)) h pieces small agrees = (
    ap ok (mod_small (offset + length p) small),
    record {
      holds = record {
        valid_id = h.holds.valid_id;
        lock_exists = h.holds.lock_exists;
        prefix = h.holds.prefix;
        prefix_size = h.holds.prefix_size;
        pieces = pieces;
        tail = [];
        stored =
            lookup-insert id id _ s.files
            ∙ rw (same_self id, exact_bytes s id ps h)
                (ap some (
                  attachment_grown aead.seal (transfer_key sodium master_key id) h.holds.prefix ps
                    qs bytes agrees));
      };
      no_tail = refl;
    },
  )

  -- With a valid id, a piece of one byte to 32 KiB, an offset that is a multiple of 32 KiB and a
  -- sum below 2^64, and where the system grants the lock, writes and flushes:
  -- EncryptedFileStore::append on an attachment that holds exactly a list of pieces does what
  -- `append_piece` says. Where that gives a list, append returns the offset behind the piece and
  -- the attachment holds exactly this list; where it refuses the piece, append throws and no file
  -- or lock is changed.
  pub append-Implements :
      (s : Store) (id : String) (ps : List (List ℕ)) (i : ℕ) (p : List ℕ)
      → HoldsExactly s id ps
      → IsPiece p
      → i * plain_chunk_bytes + length p < 2 ^ 64
      → Implements s id
          (i * plain_chunk_bytes + length p)
          (append_piece ps i p)
          (append sodium master_key working s id (i * plain_chunk_bytes) p)
  unfolding append
  append-Implements s id ps i p h piece small =
      let key = transfer_key sodium master_key id in
      apply_plan-Implements s id ps (i * plain_chunk_bytes) p (append_piece ps i p) _ h
        (append_piece-AllPieces ps i p h.holds.pieces piece) small
        (subst (Agrees sodium aead key h.holds.prefix 0 ps (append_piece ps i p))
          (sym (
            plan_append-place s id ps i p h.holds.prefix h.holds.valid_id h.holds.lock_exists
              h.holds.prefix_size (exact_bytes s id ps h) piece))
          (place-Agrees sodium aead key h.holds.prefix ps i _ 0 header_bytes p _ h.holds.pieces
            (ap (λ m. seal_piece aead.seal key h.holds.prefix m p) (sym (zero_add i)))
            (length-attachment aead.seal key h.holds.prefix ps h.holds.prefix_size)))
