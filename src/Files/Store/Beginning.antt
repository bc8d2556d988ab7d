-- ===== src/Files/Store/Beginning.antt =====
-- What reading the records of a file gives depends on their bytes alone, not on what is behind.
use distributed_chat_system.Prelude.{
  ℕ, zero, suc, ◌+◌, ◌*◌, ◌^◌, ◌≤◌, ◌≡◌, refl, sym, ap, ◌∙◌, Bool, true, false, not, ◌||◌, none,
  some, List, [], ◌∷◌, ◌++◌, take, drop, length, ltb, ◌==◌, list_beq, arith, length-append,
  if◌then◌else◌, Result, ok, ◌>>=◌, ◌>>◌, raise_if, or_raise, raise_if-ok, ok-injective, nat_eq,
  string_eq,
}
use distributed_chat_system.Files.Store.{
  Failure, invalid_record, truncated, invalid_header, open_header, header_bytes, magic, Stream,
  plain_chunk_bytes, tag_bytes, skip, read_bytes, read_length, length_at,
}
use distributed_chat_system.Files.Store.Append.{skip_confirmed}
use distributed_chat_system.Files.Store.Read.{next_record, find_record}

pub some-injective : {A : Type 0} {x y : A} → some x ≡ some y → x ≡ y
some-injective e = cc

pub take-more : (n : ℕ) (xs ys : List ℕ) → n ≤ length xs → take n (xs ++ ys) ≡ take n xs
take-more zero xs ys h = refl
take-more (suc n) [] ys h = absurd (omega (arith, h))
take-more (suc n) (x ∷ xs) ys h = ap (◌∷◌ x) (take-more n xs ys (omega (arith, h)))

pub drop-more : (n : ℕ) (xs ys : List ℕ) → n ≤ length xs → drop n (xs ++ ys) ≡ drop n xs ++ ys
drop-more zero xs ys h = refl
drop-more (suc n) [] ys h = absurd (omega (arith, h))
drop-more (suc n) (x ∷ xs) ys h = drop-more n xs ys (omega (arith, h))

pub length-drop : (n : ℕ) (xs : List ℕ) → n ≤ length xs → n + length (drop n xs) ≡ length xs
length-drop zero xs h = omega arith
length-drop (suc n) [] h = absurd (omega (arith, h))
length-drop (suc n) (x ∷ xs) h = omega (arith, length-drop n xs (omega (arith, h)))

-- Reading from more bytes than are needed.
pub read_bytes-more :
    (n position : ℕ) (rest more : List ℕ)
    → n ≤ length rest
    → read_bytes n (record { position = position; rest = rest ++ more })
      ≡ some (take n rest, record { position = position + n; rest = drop n rest ++ more })
unfolding read_bytes skip
read_bytes-more n position rest more h =
    rw (enough, take-more n rest more h, drop-more n rest more h) refl
  where
    enough : ltb (length (rest ++ more)) n ≡ false
    enough = ground (arith, length-append rest more)

-- The part of a round behind the length.
unfoldable pub record_body : ℕ → Stream → Result Failure (ℕ × List ℕ × Stream)
unfolding read_bytes
record_body plain_size data_start = do
  raise_if ((plain_size == 0) || ltb plain_chunk_bytes plain_size) invalid_record
  (ciphertext, rest) ← or_raise (read_bytes (plain_size + tag_bytes) data_start) truncated
  ok (plain_size, ciphertext, rest)

pub record_body-more :
    (v position : ℕ) (rest more : List ℕ)
    → 1 ≤ v
    → v ≤ plain_chunk_bytes
    → v + tag_bytes ≤ length rest
    → record_body v (record { position = position; rest = rest ++ more })
      ≡ ok (
        v,
        take (v + tag_bytes) rest,
        record { position = position + (v + tag_bytes); rest = drop (v + tag_bytes) rest ++ more },
      )
unfolding record_body
record_body-more v position rest more some_bytes bounded enough =
    rw (sized, read_bytes-more (v + tag_bytes) position rest more enough) refl
  where
    sized : ((v == 0) || ltb plain_chunk_bytes v) ≡ false
    sized = ground arith

-- The two parts of a round of the loop over the confirmed records.
unfoldable pub confirmed_body : ℕ → ℕ → ℕ → Stream → Result Failure Stream
unfolding skip skip_confirmed
confirmed_body file_size n v data_start = do
  raise_if (not (v == plain_chunk_bytes) || ltb file_size (data_start.position + v + tag_bytes))
      invalid_record
  skip_confirmed file_size n (skip (v + tag_bytes) data_start)

-- A round that passed read a full record inside the file.
pub confirmed_body-ok :
    (file_size n v position : ℕ) (rest : List ℕ) (h : Stream)
    → position + length rest ≡ file_size
    → confirmed_body file_size n v (record { position = position; rest = rest }) ≡ ok h
    → (v ≡ plain_chunk_bytes)
      × (v + tag_bytes ≤ length rest)
      × (skip_confirmed file_size n
            (record { position = position + (v + tag_bytes); rest = drop (v + tag_bytes) rest })
          ≡ ok h)
unfolding confirmed_body skip
confirmed_body-ok file_size n v position rest h size e =
    let (f, next) =
      raise_if-ok (not (v == plain_chunk_bytes) || ltb file_size (position + v + tag_bytes))
        invalid_record _ e in
    (ground arith, ground arith, next)

pub next_record-cons :
    (position a b c d : ℕ) (rest : List ℕ)
    → next_record (record { position = position; rest = a ∷ b ∷ c ∷ d ∷ rest })
      ≡ record_body
          (a * 2 ^ 24 + b * 2 ^ 16 + c * 2 ^ 8 + d)
          (record { position = position + 4; rest = rest })
unfolding next_record record_body read_length length_at
next_record-cons position a b c d rest = refl

pub find_step :
    (i position a b c d : ℕ) (rest more : List ℕ)
    → a * 2 ^ 24 + b * 2 ^ 16 + c * 2 ^ 8 + d ≡ plain_chunk_bytes
    → a * 2 ^ 24 + b * 2 ^ 16 + c * 2 ^ 8 + d + tag_bytes ≤ length rest
    → find_record (suc i) (record { position = position; rest = a ∷ b ∷ c ∷ d ∷ (rest ++ more) })
      ≡ find_record i (record {
        position = position + 4 + (a * 2 ^ 24 + b * 2 ^ 16 + c * 2 ^ 8 + d + tag_bytes);
        rest = drop (a * 2 ^ 24 + b * 2 ^ 16 + c * 2 ^ 8 + d + tag_bytes) rest ++ more;
      })
unfolding find_record
find_step i position a b c d rest more full inside =
    rw
      (
        next_record-cons position a b c d (rest ++ more),
        record_body-more (a * 2 ^ 24 + b * 2 ^ 16 + c * 2 ^ 8 + d) (position + 4) rest more
            (omega (arith, full)) (omega (arith, full)) inside,
      )
      refl

-- The loop over the confirmed records ends where the loop of read is when it has left them.
pub find_confirmed :
    (i file_size position : ℕ) (rest more : List ℕ) (h : Stream)
    → position + length rest ≡ file_size
    → skip_confirmed file_size i (record { position = position; rest = rest }) ≡ ok h
    → (find_record i (record { position = position; rest = rest ++ more })
        ≡ find_record 0 (record { position = h.position; rest = h.rest ++ more }))
      × (h.position + length h.rest ≡ file_size)
unfolding skip_confirmed confirmed_body read_length length_at
find_confirmed zero file_size position rest more h size e =
    let same_stream = ok-injective e in
    (
      ap (λ (s : Stream). find_record 0 (record { position = s.position; rest = s.rest ++ more }))
          same_stream,
      ap (λ (s : Stream). s.position + length s.rest) (sym same_stream) ∙ size,
    )
find_confirmed (suc i) file_size position [] more h size e = cc
find_confirmed (suc i) file_size position (a ∷ []) more h size e = cc
find_confirmed (suc i) file_size position (a ∷ b ∷ []) more h size e = cc
find_confirmed (suc i) file_size position (a ∷ b ∷ c ∷ []) more h size e = cc
find_confirmed (suc i) file_size position (a ∷ b ∷ c ∷ d ∷ rest) more h size e =
    let v = a * 2 ^ 24 + b * 2 ^ 16 + c * 2 ^ 8 + d in
    let (full, inside, next) =
      confirmed_body-ok file_size i v (position + 4) rest h (omega (arith, size)) e in
    let (found, end) =
      find_confirmed i file_size (position + 4 + (v + tag_bytes)) (drop (v + tag_bytes) rest) more h
        (omega (arith, size, length-drop (v + tag_bytes) rest inside)) next in
    (find_step i position a b c d rest more full inside ∙ found, end)

pub unless_none :
    {A : Type 0} (b : Bool) {y x : A}
    → (if b then none else some y) ≡ some x
    → (b ≡ false) × (y ≡ x)
unless_none true e = cc
unless_none false e = (refl, some-injective e)

pub left_false : (a b : Bool) → (a || b) ≡ false → a ≡ false
left_false true b e = e
left_false false b e = refl

pub right_false : (a b : Bool) → (a || b) ≡ false → b ≡ false
right_false true b e = ground arith
right_false false b e = e

pub not_short : (n : ℕ) (xs : List ℕ) → ltb (length xs) n ≡ false → n ≤ length xs
not_short n xs e = ground arith

pub not-false : (b : Bool) → not b ≡ false → b ≡ true
not-false true e = refl
not-false false e = ground arith

pub read_bytes-ok :
    (n position : ℕ) (rest : List ℕ) (x : List ℕ × Stream)
    → read_bytes n (record { position = position; rest = rest }) ≡ some x
    → (n ≤ length rest) × (x.0 ≡ take n rest)
unfolding read_bytes
read_bytes-ok n position rest x e =
    let (enough, taken) = unless_none (ltb (length rest) n) e in
    (ground arith, ap (λ (y : List ℕ × Stream). y.0) (sym taken))

pub find_last :
    (v position a b c d : ℕ) (rest more ciphertext : List ℕ)
    → a * 2 ^ 24 + b * 2 ^ 16 + c * 2 ^ 8 + d ≡ v
    → 1 ≤ v
    → v ≤ plain_chunk_bytes
    → v + tag_bytes ≤ length rest
    → take (v + tag_bytes) rest ≡ ciphertext
    → find_record 0 (record { position = position; rest = a ∷ b ∷ c ∷ d ∷ (rest ++ more) })
      ≡ ok ciphertext
unfolding find_record
find_last v position a b c d rest more ciphertext e some_bytes bounded enough taken =
    rw
      (
        next_record-cons position a b c d (rest ++ more),
        e,
        record_body-more v (position + 4) rest more some_bytes bounded enough,
      )
      (ap ok taken)

pub longer_header :
    (bytes more : List ℕ)
    → header_bytes ≤ length bytes
    → ltb (length (bytes ++ more)) header_bytes ≡ false
longer_header bytes more h = ground (arith, length-append bytes more)

pub header_size :
    (bytes : List ℕ)
    → header_bytes ≤ length bytes
    → header_bytes + length (drop 16 (drop 9 bytes)) ≡ length bytes
header_size bytes h =
    let first = length-drop 9 bytes (omega (arith, h)) in
    omega (arith, h, first, length-drop 16 (drop 9 bytes) (omega (arith, h, first)))

pub open_header-more :
    (bytes more : List ℕ) (x : List ℕ × Stream)
    → open_header bytes ≡ ok x
    → (open_header (bytes ++ more)
        ≡ ok (x.0, record { position = x.1.position; rest = x.1.rest ++ more }))
      × (x.1.position + length x.1.rest ≡ length bytes)
unfolding open_header
open_header-more bytes more x e =
    let (known, opened) =
      raise_if-ok (ltb (length bytes) header_bytes || not (list_beq (take 9 bytes) magic))
        invalid_header _ e in
    let same_start = ok-injective opened in
    let long =
      left_false (ltb (length bytes) header_bytes) (not (list_beq (take 9 bytes) magic)) known in
    let enough = not_short header_bytes bytes long in
    let first = length-drop 9 bytes (omega (arith, enough)) in
    (
      rw
          (
            longer_header bytes more enough,
            take-more 9 bytes more (omega (arith, enough)),
            right_false (ltb (length bytes) header_bytes) (not (list_beq (take 9 bytes) magic))
                known,
            drop-more 9 bytes more (omega (arith, enough)),
            take-more 16 (drop 9 bytes) more (omega (arith, enough, first)),
            drop-more 16 (drop 9 bytes) more (omega (arith, enough, first)),
          )
          (ap
            (λ (y : List ℕ × Stream).
              ok (y.0, record { position = y.1.position; rest = y.1.rest ++ more }))
            same_start),
      ap (λ (y : List ℕ × Stream). y.1.position + length y.1.rest) (sym same_start)
          ∙ header_size bytes enough,
    )
