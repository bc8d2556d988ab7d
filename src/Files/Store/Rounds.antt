-- ===== src/Files/Store/Rounds.antt =====
-- The rounds of append over records of known pieces: one is passed, is short, or is replayed.
use distributed_chat_system.Prelude.{
  ℕ, suc, ◌+◌, ◌-◌, ◌%◌, ◌^◌, ◌≡◌, refl, sym, ap, ◌∙◌, inl, inr, Bool, true, false, not, ◌||◌, some,
  List, ◌++◌, length, ltb, ◌==◌, list_beq, list_beq_iff, nat_eq, arith, length-append, Bool-cases,
  if◌then◌else◌, ok, err, is_ok, ◌>>◌, raise_if, drop-append,
}
use distributed_chat_system.Files.Store.{
  invalid_record, conflict, Sodium, plain_chunk_bytes, tag_bytes, skip, write_length, nonce_for,
}
use distributed_chat_system.Files.Store.Append.{replay, skip_confirmed, check_replay}
use distributed_chat_system.Files.Store.Records.{
  IsAead, IsPiece, seal_piece, read_length-write_length, read_bytes-append,
}
use distributed_chat_system.Files.Store.Lookup.{piece_size}

pub seal-injective :
    (sodium : Sodium) (aead : IsAead sodium) (p q n k : List ℕ)
    → aead.seal p n k ≡ aead.seal q n k
    → p ≡ q
seal-injective sodium aead p q n k e =
    some_injective
      (sym (aead.decrypts p n k) ∙ (ap (λ c. sodium.decrypt c n k) e ∙ aead.decrypts q n k))
  where
    some_injective : {p q : List ℕ} → some p ≡ some q → p ≡ q
    some_injective h = ground arith

pub checked :
    (b : Bool) → (raise_if (not b) conflict >> ok replay) ≡ (if b then ok replay else err conflict)
checked true = refl
checked false = refl

module _ (sodium : Sodium) (aead : IsAead sodium) (key prefix : List ℕ) where
  pub length-record :
      (k : ℕ) (q : List ℕ) (rest : List ℕ)
      → length (write_length (length q % 2 ^ 32) ++ (seal_piece aead.seal key prefix k q ++ rest))
        ≡ 4 + (length q + 16) + length rest
  unfolding write_length seal_piece
  length-record k q rest = omega (
    arith,
    length-append (aead.seal q (nonce_for prefix k) key) rest,
    aead.length_seal q (nonce_for prefix k) key,
  )

  -- The record that is there already has the offered size.
  pub same_size :
      (file_size k position : ℕ) (q p c rest : List ℕ)
      → IsPiece q
      → c ≡ seal_piece aead.seal key prefix k p
      → position + (4 + (length q + 16) + length rest) ≡ file_size
      → length q ≡ length p
      → check_replay file_size
          (record {
            position = position;
            rest =
                write_length (length q % 2 ^ 32) ++ (seal_piece aead.seal key prefix k q ++ rest);
          })
          p
          c
        ≡ (if list_beq (seal_piece aead.seal key prefix k q) c then ok replay else err conflict)
  unfolding check_replay seal_piece
  same_size file_size k position q p c rest h e size l =
      rw
        (
          piece_size q h,
          read_length-write_length position (length q) _ (omega (arith, h.bounded)),
          roomy,
          same_length,
          read_bytes-append (position + 4) (aead.seal q (nonce_for prefix k) key) rest,
        )
        (checked (list_beq (aead.seal q (nonce_for prefix k) key) c))
    where
      same_length : length c ≡ length (aead.seal q (nonce_for prefix k) key)
      same_length = omega (
        arith,
        ap length e,
        l,
        aead.length_seal q (nonce_for prefix k) key,
        aead.length_seal p (nonce_for prefix k) key,
      )

      roomy : (not (length q == length p) || ltb (file_size - position) (4 + length c)) ≡ false
      roomy = ground (arith, same_length, aead.length_seal q (nonce_for prefix k) key)

  pub other_size :
      (file_size k position : ℕ) (q p c rest : List ℕ)
      → IsPiece q
      → (length q == length p) ≡ false
      → is_ok (
          check_replay file_size
            (record { position = position; rest = write_length (length q % 2 ^ 32) ++ rest })
            p
            c)
        ≡ false
  unfolding check_replay
  other_size file_size k position q p c rest h l =
      rw
        (
          piece_size q h,
          read_length-write_length position (length q) rest (omega (arith, h.bounded)),
          l,
        )
        refl

  pub different :
      (k : ℕ) (q p c : List ℕ)
      → c ≡ seal_piece aead.seal key prefix k p
      → list_beq q p ≡ false
      → list_beq (seal_piece aead.seal key prefix k q) c ≡ false
  unfolding seal_piece
  different k q p c e n = elim (Bool-cases (list_beq (aead.seal q (nonce_for prefix k) key) c)) [
    | inr f ↦ f
    | inl t ↦
        let same_seal = (list_beq_iff (aead.seal q (nonce_for prefix k) key) c).0 t ∙ e in
        let same_piece = seal-injective sodium aead q p (nonce_for prefix k) key same_seal in
        ground (arith, (list_beq_iff q p).1 same_piece, n)
  ]

  pub skip_record :
      (k position : ℕ) (q rest : List ℕ)
      → skip
          (length q + tag_bytes)
          (record { position = position; rest = aead.seal q (nonce_for prefix k) key ++ rest })
        ≡ record { position = position + (length q + tag_bytes); rest = rest }
  unfolding skip
  skip_record k position q rest =
      rw
        (
          sym (aead.length_seal q (nonce_for prefix k) key),
          drop-append (aead.seal q (nonce_for prefix k) key) rest,
        )
        refl

  -- The loop passes a full record.
  pub skip_full :
      (i file_size k position : ℕ) (q rest : List ℕ)
      → IsPiece q
      → (length q == plain_chunk_bytes) ≡ true
      → position + (4 + (length q + 16) + length rest) ≡ file_size
      → skip_confirmed file_size (suc i) (record {
        position = position;
        rest = write_length (length q % 2 ^ 32) ++ (seal_piece aead.seal key prefix k q ++ rest);
      })
        ≡ skip_confirmed file_size i
            (record { position = position + 4 + (length q + tag_bytes); rest = rest })
  unfolding skip_confirmed skip seal_piece
  skip_full i file_size k position q rest h full size =
      rw
        (
          piece_size q h,
          read_length-write_length position (length q) _ (omega (arith, h.bounded)),
          inside,
          skip_record k (position + 4) q rest,
        )
        refl
    where
      inside :
          (not (length q == plain_chunk_bytes)
            || ltb file_size (position + 4 + length q + tag_bytes))
          ≡ false
      inside = ground (arith, full)

  pub skip_short :
      (i file_size position : ℕ) (q rest : List ℕ)
      → IsPiece q
      → (length q == plain_chunk_bytes) ≡ false
      → skip_confirmed file_size
          (suc i)
          (record { position = position; rest = write_length (length q % 2 ^ 32) ++ rest })
        ≡ err invalid_record
  unfolding skip_confirmed
  skip_short i file_size position q rest h short =
      rw
        (
          piece_size q h,
          read_length-write_length position (length q) rest (omega (arith, h.bounded)),
          short,
        )
        refl
