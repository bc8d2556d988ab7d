-- ===== src/Files/Store/Place.antt =====
-- What append decides for an attachment that holds pieces: one is added, offered again, or refused.
use distributed_chat_system.Prelude.{
  ℕ, zero, suc, ◌+◌, ◌%◌, ◌^◌, ◌≡◌, refl, sym, ap, ◌∙◌, inl, inr, true, false, Option, none, some,
  List, [], ◌∷◌, ◌++◌, length, ltb, ◌==◌, ==_iff, list_beq, list_beq_iff, nat_eq, All, arith,
  append_nil, append_assoc, Bool-cases, if◌then◌else◌, Result, ok, err, is_ok, ◌>>=◌,
}
use distributed_chat_system.Files.Store.{
  Failure, Sodium, Stream, plain_chunk_bytes, tag_bytes, write_length,
}
use distributed_chat_system.Files.Store.Append.{
  Plan, replay, add, skip_confirmed, check_replay, place_record,
}
use distributed_chat_system.Files.Store.Records.{IsAead, IsPiece, seal_piece, records}
use distributed_chat_system.Files.Store.Rounds.{
  length-record, same_size, other_size, different, skip_full, skip_short,
}

add_zero : (n : ℕ) → n + 0 ≡ n
add_zero n = omega arith

add_suc : (k i : ℕ) → k + suc i ≡ suc k + i
add_suc k i = omega arith

before_end :
    (file_size position a b : ℕ)
    → position + (4 + (a + 16) + b) ≡ file_size
    → ltb position file_size ≡ true
before_end file_size position a b e = ground arith

shift :
    (position a b file_size : ℕ)
    → position + (4 + (a + 16) + b) ≡ file_size
    → position + 4 + (a + 16) + b ≡ file_size
shift position a b file_size e = omega arith

abbrev pub cons_some : List ℕ → Option (List (List ℕ)) → Option (List (List ℕ))
cons_some q none = none
cons_some q (some ps) = some (q ∷ ps)

-- The pieces after a piece is offered at an index, or `none` where it is refused: a piece before
-- the end must be the one that is there, and all before it must be full.
unfoldable pub append_piece : List (List ℕ) → ℕ → List ℕ → Option (List (List ℕ))
append_piece [] zero p = some (p ∷ [])
append_piece [] (suc i) p = none
append_piece (q ∷ qs) zero p = if list_beq q p then some (q ∷ qs) else none
append_piece (q ∷ qs) (suc i) p =
    if length q == plain_chunk_bytes then cons_some q (append_piece qs i p) else none

module _ (sodium : Sodium) (aead : IsAead sodium) (key prefix : List ℕ) where
  abbrev stored : ℕ → List (List ℕ) → List ℕ
  stored k ps = records aead.seal key prefix k ps []

  -- What append decides agrees with what it means for the pieces.
  abbrev pub Agrees : ℕ → List (List ℕ) → Option (List (List ℕ)) → Result Failure Plan → Type 0
  Agrees k ps none r = is_ok r ≡ false
  Agrees k ps (some qs) (err e) = ⊥
  Agrees k ps (some qs) (ok replay) = qs ≡ ps
  Agrees k ps (some qs) (ok (add bytes)) =
      records aead.seal key prefix k qs [] ≡ records aead.seal key prefix k ps [] ++ bytes

  unfoldable pub place : ℕ → ℕ → Stream → List ℕ → List ℕ → Result Failure Plan
  place file_size i s p c = skip_confirmed file_size i s >>= place_record file_size p c

  replay_Agrees :
      (file_size k position : ℕ) (q p c rest : List ℕ) (qs : List (List ℕ))
      → IsPiece q
      → c ≡ seal_piece aead.seal key prefix k p
      → position + (4 + (length q + 16) + length rest) ≡ file_size
      → Agrees k (q ∷ qs) (append_piece (q ∷ qs) 0 p) (
          check_replay file_size
            (record {
              position = position;
              rest =
                  write_length (length q % 2 ^ 32) ++ (seal_piece aead.seal key prefix k q ++ rest);
            })
            p
            c)
  unfolding append_piece
  replay_Agrees file_size k position q p c rest qs h e size = elim (Bool-cases (list_beq q p)) [
    | inl t ↦
        let equal = (list_beq_iff q p).0 t in
        rw
          (
            t,
            same_size sodium aead key prefix file_size k position q p c rest h e size
                (ap length equal),
            (list_beq_iff (seal_piece aead.seal key prefix k q) c).1
                (ap (seal_piece aead.seal key prefix k) equal ∙ sym e),
          )
          refl
    | inr n ↦ rw n (elim (Bool-cases (length q == length p)) [
      | inl l ↦
          rw
            (
              same_size sodium aead key prefix file_size k position q p c rest h e size
                  ((==_iff (length q) (length p)).0 l),
              different sodium aead key prefix k q p c e n,
            )
            refl
      | inr l ↦
          other_size sodium aead key prefix file_size k position q p c
            (seal_piece aead.seal key prefix k q ++ rest) h l
    ])
  ]

  -- A piece in front of both sides.
  Agrees-cons :
      (k : ℕ) (q : List ℕ) (ps : List (List ℕ)) (o : Option (List (List ℕ)))
      (r : Result Failure Plan)
      → Agrees (suc k) ps o r
      → Agrees k (q ∷ ps) (cons_some q o) r
  unfolding records
  Agrees-cons k q ps none r h = h
  Agrees-cons k q ps (some qs) (err e) h = h
  Agrees-cons k q ps (some qs) (ok replay) h = ap (◌∷◌ q) h
  Agrees-cons k q ps (some qs) (ok (add bytes)) h =
      ap (λ rest. write_length (length q % 2 ^ 32) ++ (seal_piece aead.seal key prefix k q ++ rest))
        h
      ∙ ap (write_length (length q % 2 ^ 32) ++◌) (
          sym (
            append_assoc (seal_piece aead.seal key prefix k q)
              (records aead.seal key prefix (suc k) ps []) bytes))

  end_Agrees :
      (file_size k position : ℕ) (p c : List ℕ)
      → c ≡ seal_piece aead.seal key prefix k p
      → position + 0 ≡ file_size
      → Agrees k []
          (some (p ∷ []))
          (place_record file_size p c (record { position = position; rest = [] }))
  unfolding place_record records
  end_Agrees file_size k position p c e size = rw (at_end) (
      ap (write_length (length p % 2 ^ 32) ++◌)
        (append_nil (seal_piece aead.seal key prefix k p) ∙ sym e))
    where
      at_end : ltb position file_size ≡ false
      at_end = ground arith

  whole :
      (k position : ℕ) (q : List ℕ) (qs : List (List ℕ)) (file_size : ℕ)
      → position + length (records aead.seal key prefix k (q ∷ qs) []) ≡ file_size
      → position + (4 + (length q + 16) + length (records aead.seal key prefix (suc k) qs []))
        ≡ file_size
  unfolding records
  whole k position q qs file_size size =
      omega (
        arith,
        length-record sodium aead key prefix k q (records aead.seal key prefix (suc k) qs []),
      )

  pub place-Agrees :
      (ps : List (List ℕ)) (i file_size k position : ℕ) (p c : List ℕ)
      → All IsPiece ps
      → c ≡ seal_piece aead.seal key prefix (k + i) p
      → position + length (records aead.seal key prefix k ps []) ≡ file_size
      → Agrees k ps (append_piece ps i p) (
          place file_size i
            (record { position = position; rest = records aead.seal key prefix k ps [] })
            p
            c)
  unfolding place place_record skip_confirmed append_piece records
  place-Agrees [] zero file_size k position p c pieces e size =
      end_Agrees file_size k position p c
        (e ∙ ap (λ m. seal_piece aead.seal key prefix m p) (add_zero k)) size
  place-Agrees [] (suc i) file_size k position p c pieces e size = refl
  place-Agrees (q ∷ qs) zero file_size k position p c pieces e size =
      rw (before_end file_size position (length q) _ (whole k position q qs file_size size)) (
        replay_Agrees file_size k position q p c (records aead.seal key prefix (suc k) qs []) qs
          pieces.0 (e ∙ ap (λ m. seal_piece aead.seal key prefix m p) (add_zero k))
          (whole k position q qs file_size size))
  place-Agrees (q ∷ qs) (suc i) file_size k position p c pieces e size =
      elim (Bool-cases (length q == plain_chunk_bytes)) [
        | inr short ↦
            rw (short, skip_short sodium aead key prefix i file_size position q _ pieces.0 short)
              refl
        | inl full ↦
            rw
              (
                full,
                skip_full sodium aead key prefix i file_size k position q
                    (records aead.seal key prefix (suc k) qs []) pieces.0 full
                    (whole k position q qs file_size size),
              )
              (Agrees-cons k q qs (append_piece qs i p) _ (
                place-Agrees qs i file_size (suc k) (position + 4 + (length q + tag_bytes)) p c
                  pieces.1 (e ∙ ap (λ m. seal_piece aead.seal key prefix m p) (add_suc k i))
                  (shift position (length q) _ file_size (whole k position q qs file_size size))))
      ]
