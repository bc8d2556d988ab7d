-- ===== src/Files/Store/Found.antt =====
-- The record that an append adds or replays is the one that read finds.
use distributed_chat_system.Prelude.{
  ℕ, ◌+◌, ◌-◌, ◌*◌, ◌%◌, ◌^◌, ◌≡◌, refl, sym, subst, ap, ◌∙◌, inl, inr, true, false, not, ◌||◌,
  List, [], ◌∷◌, ◌++◌, take, length, ltb, ◌==◌, ==_iff, list_beq, list_beq_iff, arith, append_assoc,
  Bool-cases, ok, or_raise, raise_if-ok, >>=-ok, or_raise-ok, ok-injective, nat_eq, string_eq,
}
use distributed_chat_system.Files.Store.{conflict, read_bytes, read_length, length_at, write_length}
use distributed_chat_system.Files.Store.Append.{Plan, replay, add, check_replay, place_record}
use distributed_chat_system.Files.Store.Read.{find_record}
use distributed_chat_system.Files.Store.Records.{IsPiece}
use distributed_chat_system.Files.Store.Lookup.{next_record_lem}
use distributed_chat_system.Files.Store.Beginning.{not-false, read_bytes-ok, find_last}

-- A replayed record is the one that read finds.
pub find_replayed :
    (file_size position : ℕ) (rest p ciphertext more : List ℕ) (plan : Plan)
    → IsPiece p
    → length ciphertext ≡ length p + 16
    → check_replay file_size (record { position = position; rest = rest }) p ciphertext ≡ ok plan
    → (find_record 0 (record { position = position; rest = rest ++ more }) ≡ ok ciphertext)
      × (plan ≡ replay)
unfolding check_replay read_length length_at
find_replayed file_size position [] p ciphertext more plan h size e = cc
find_replayed file_size position (a ∷ []) p ciphertext more plan h size e = cc
find_replayed file_size position (a ∷ b ∷ []) p ciphertext more plan h size e = cc
find_replayed file_size position (a ∷ b ∷ c ∷ []) p ciphertext more plan h size e = cc
find_replayed file_size position (a ∷ b ∷ c ∷ d ∷ rest) p ciphertext more plan h size e =
    let v = a * 2 ^ 24 + b * 2 ^ 16 + c * 2 ^ 8 + d in
    let (fits, e1) =
      raise_if-ok (not (v == length p) || ltb (file_size - position) (4 + length ciphertext))
        conflict _ e in
    let (x, r, e2) =
      >>=-ok
        (or_raise (read_bytes (length ciphertext) (record { position = position + 4; rest = rest }))
          conflict)
        _ e1 in
    let (enough, taken) =
      read_bytes-ok (length ciphertext) (position + 4) rest x (or_raise-ok _ conflict r) in
    let (equal, e3) = raise_if-ok (not (list_beq x.0 ciphertext)) conflict _ e2 in
    (
      find_last (length p) position a b c d rest more ciphertext
          (ground (arith, ==_iff v (length p), fits)) h.some_bytes h.bounded
          (omega (arith, size, enough))
          (ap (λ n. take n rest) (sym size)
            ∙ sym taken
            ∙ (list_beq_iff x.0 ciphertext).0 (not-false (list_beq x.0 ciphertext) equal)),
      sym (ok-injective e3),
    )

-- What a plan puts behind the file.
abbrev pub added : Plan → List ℕ
added replay = []
added (add bytes) = bytes

pub no_rest :
    (position file_size : ℕ) (rest : List ℕ)
    → position + length rest ≡ file_size
    → ltb position file_size ≡ false
    → rest ≡ []
no_rest position file_size [] size e = refl
no_rest position file_size (x ∷ rest) size e = ground arith

pub place_before_end :
    (file_size position : ℕ) (rest p ciphertext : List ℕ)
    → ltb position file_size ≡ true
    → place_record file_size p ciphertext (record { position = position; rest = rest })
      ≡ check_replay file_size (record { position = position; rest = rest }) p ciphertext
unfolding place_record
place_before_end file_size position rest p ciphertext t = rw t refl

pub place_at_end :
    (file_size position : ℕ) (rest p ciphertext : List ℕ)
    → ltb position file_size ≡ false
    → place_record file_size p ciphertext (record { position = position; rest = rest })
      ≡ ok (add (write_length (length p % 2 ^ 32) ++ ciphertext))
unfolding place_record
place_at_end file_size position rest p ciphertext f = rw f refl

pub find_added :
    (position : ℕ) (p ciphertext more : List ℕ)
    → IsPiece p
    → length ciphertext ≡ length p + 16
    → find_record 0 (record {
      position = position;
      rest = (write_length (length p % 2 ^ 32) ++ ciphertext) ++ more;
    })
      ≡ ok ciphertext
unfolding find_record
find_added position p ciphertext more h long =
    rw
      (
        append_assoc (write_length (length p % 2 ^ 32)) ciphertext more,
        next_record_lem position p ciphertext more h long,
      )
      refl

pub find_placed :
    (file_size position : ℕ) (rest p ciphertext more : List ℕ) (plan : Plan)
    → IsPiece p
    → length ciphertext ≡ length p + 16
    → position + length rest ≡ file_size
    → place_record file_size p ciphertext (record { position = position; rest = rest }) ≡ ok plan
    → find_record 0 (record { position = position; rest = rest ++ (added plan ++ more) })
      ≡ ok ciphertext
unfolding place_record
find_placed file_size position rest p ciphertext more plan h long size e =
    elim (Bool-cases (ltb position file_size)) [
      | inl t ↦
          (find_replayed file_size position rest p ciphertext (added plan ++ more) plan h long
            (sym (place_before_end file_size position rest p ciphertext t) ∙ e)).0
      | inr f ↦
          subst
            (λ o.
              find_record 0 (record { position = position; rest = rest ++ (added o ++ more) })
              ≡ ok ciphertext)
            (ok-injective (sym (place_at_end file_size position rest p ciphertext f) ∙ e))
            (subst
              (λ r.
                find_record 0 (record {
                  position = position;
                  rest = r ++ ((write_length (length p % 2 ^ 32) ++ ciphertext) ++ more);
                })
                ≡ ok ciphertext)
              (sym (no_rest position file_size rest size f))
              (find_added position p ciphertext more h long))
    ]
