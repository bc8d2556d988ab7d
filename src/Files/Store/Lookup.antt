-- ===== src/Files/Store/Lookup.antt =====
-- Reading a piece of an attachment by its offset.
use distributed_chat_system.Prelude.{
  all, raise_if-ok, ok-injective, ℕ, zero, suc, ◌+◌, ◌*◌, ◌/◌, ◌%◌, ◌^◌, ◌≤◌, ◌≡◌, refl, sym, ap,
  ◌∙◌, String, true, false, not, ◌||◌, some, List, [], ◌∷◌, ◌++◌, length, ltb, ◌==◌, arith,
  length-append, zero_add, take-append, drop-append, get_elem?, ok, nat_eq, string_eq, All, lookup,
  contains,
}
use distributed_chat_system.Files.Store.{
  Sodium, Store, plain_chunk_bytes, header_bytes, magic, write_length, nonce_for, open_header,
  transfer_key, path_for, invalid_id, codes, is_id_char, take_lock,
}
use distributed_chat_system.Files.Store.Read.{next_record, find_record, read_record, read}
use distributed_chat_system.Files.Store.Records.{
  IsAead, IsPiece, seal_piece, records, read_length-write_length, read_bytes-append,
}

pub not_longer : (p : List ℕ) (m : ℕ) → length p ≤ m → ltb m (length p) ≡ false
not_longer p m h = ground arith

pub piece_size : (p : List ℕ) → IsPiece p → length p % 2 ^ 32 ≡ length p
piece_size p h = omega (arith, h.bounded)

pub next_record_lem :
    (n : ℕ) (p c rest : List ℕ)
    → IsPiece p
    → length c ≡ length p + 16
    → next_record (record { position = n; rest = write_length (length p % 2 ^ 32) ++ (c ++ rest) })
      ≡ ok (length p, c, record { position = n + 4 + length c; rest = rest })
unfolding next_record
next_record_lem n p c rest h e =
    rw
      (
        piece_size p h,
        read_length-write_length n (length p) (c ++ rest) (omega (arith, h.bounded)),
        sized,
        sym e,
        read_bytes-append (n + 4) c rest,
      )
      refl
  where
    sized : ((length p == 0) || ltb plain_chunk_bytes (length p)) ≡ false
    sized = ground (arith, h.bounded, h.some_bytes)

module _ (sodium : Sodium) (aead : IsAead sodium) (key prefix : List ℕ) where
  seal_first :
      (q p : List ℕ) (k : ℕ)
      → some q ≡ some p
      → aead.seal q (nonce_for prefix k) key ≡ seal_piece aead.seal key prefix (k + 0) p
  unfolding seal_piece
  seal_first q p k e = ground arith

  find_record_lem :
      (ps : List (List ℕ)) (n k position : ℕ) (tail p : List ℕ)
      → All IsPiece ps
      → get_elem? ps n ≡ some p
      → find_record n
          (record { position = position; rest = records aead.seal key prefix k ps tail })
        ≡ ok (seal_piece aead.seal key prefix (k + n) p)
  unfolding find_record records seal_piece
  find_record_lem [] n k position tail p pieces e = ground arith
  find_record_lem (q ∷ qs) zero k position tail p pieces e =
      rw
        (next_record_lem position q (aead.seal q (nonce_for prefix k) key)
          (records aead.seal key prefix (suc k) qs tail) pieces.0
          (aead.length_seal q (nonce_for prefix k) key))
        (ap ok (seal_first q p k e))
  find_record_lem (q ∷ qs) (suc n) k position tail p pieces e =
      rw
        (next_record_lem position q (aead.seal q (nonce_for prefix k) key)
          (records aead.seal key prefix (suc k) qs tail) pieces.0
          (aead.length_seal q (nonce_for prefix k) key))
        (find_record_lem qs n (suc k) (position + 4 + length (aead.seal q (nonce_for prefix k) key))
            tail p pieces.1 e
          ∙ ap (λ m. ok (seal_piece aead.seal key prefix m p)) (omega arith))

  found_record :
      (ps : List (List ℕ)) (n : ℕ) (tail p : List ℕ)
      → All IsPiece ps
      → get_elem? ps n ≡ some p
      → find_record n
          (record { position = header_bytes; rest = records aead.seal key prefix 0 ps tail })
        ≡ ok (aead.seal p (nonce_for prefix n) key)
  unfolding seal_piece
  found_record ps n tail p pieces e =
      find_record_lem ps n 0 header_bytes tail p pieces e
      ∙ ap (λ m. ok (aead.seal p (nonce_for prefix m) key)) (zero_add n)

pub path_for-id : (id path : String) → path_for id ≡ ok path → path ≡ id
unfolding path_for
path_for-id id path h = sym (
    ok-injective
      (raise_if-ok (not (length (codes id) == 36) || not (all is_id_char (codes id))) invalid_id _
        h).1)

-- The bytes of an attachment that holds pieces, and what is behind them.
unfoldable pub attachment :
    (List ℕ → List ℕ → List ℕ → List ℕ) → List ℕ → List ℕ → List (List ℕ) → List ℕ → List ℕ
unfolding records
attachment seal key prefix ps tail = magic ++ (prefix ++ records seal key prefix 0 ps tail)

pub open_header-attachment :
    (seal : List ℕ → List ℕ → List ℕ → List ℕ) (key prefix : List ℕ) (ps : List (List ℕ))
    (tail : List ℕ)
    → length prefix ≡ 16
    → open_header (attachment seal key prefix ps tail)
      ≡ ok (prefix, record { position = header_bytes; rest = records seal key prefix 0 ps tail })
unfolding open_header attachment
open_header-attachment seal key prefix ps tail h = rw (long, sym h, take-append, drop-append) refl
  where
    long :
        ltb (length (magic ++ (prefix ++ records seal key prefix 0 ps tail))) header_bytes ≡ false
    long = ground (arith, length-append prefix (records seal key prefix 0 ps tail))

module _ (sodium : Sodium) (aead : IsAead sodium) (master_key : List ℕ) where
  read_record-attachment :
      (id : String) (prefix : List ℕ) (ps : List (List ℕ)) (tail p : List ℕ) (n maximum : ℕ)
      → length prefix ≡ 16
      → All IsPiece ps
      → get_elem? ps n ≡ some p
      → length p ≤ maximum
      → read_record sodium master_key id
          (attachment aead.seal (transfer_key sodium master_key id) prefix ps tail)
          n
          maximum
        ≡ ok p
  unfolding read_record seal_piece
  read_record-attachment id prefix ps tail p n maximum h pieces e m =
      let key = transfer_key sodium master_key id in
      rw
        (
          open_header-attachment aead.seal key prefix ps tail h,
          found_record sodium aead key prefix ps n tail p pieces e,
          aead.decrypts p (nonce_for prefix n) key,
        )
        (rw (not_longer p maximum m) refl)

module _ (sodium : Sodium) (aead : IsAead sodium) (master_key : List ℕ) where
  -- A store in which an attachment holds pieces, in bytes that may go on with something else.
  pub record Holds (store : Store) (id : String) (ps : List (List ℕ)) : Type 0 where
    pub valid_id : path_for id ≡ ok id
    pub lock_exists : contains store.locks id ≡ true
    pub prefix : List ℕ
    pub prefix_size : length prefix ≡ 16
    pub pieces : All IsPiece ps
    pub tail : List ℕ
    pub stored :
        lookup id store.files
        ≡ some (attachment aead.seal (transfer_key sodium master_key id) prefix ps tail)

  pub read-Holds :
      (store : Store) (id : String) (ps : List (List ℕ)) (p : List ℕ) (n maximum : ℕ)
      → Holds store id ps
      → IsPiece p
      → get_elem? ps n ≡ some p
      → length p ≤ maximum
      → read sodium master_key true store id (n * plain_chunk_bytes) maximum ≡ ok p
  unfolding read take_lock
  read-Holds store id ps p n maximum h piece e m =
      rw (aligned, h.valid_id, h.lock_exists, h.stored, index)
        (read_record-attachment sodium aead master_key id h.prefix ps h.tail p n maximum
          h.prefix_size h.pieces e m)
    where
      aligned : (not ((n * plain_chunk_bytes) % plain_chunk_bytes == 0) || (maximum == 0)) ≡ false
      aligned = ground (arith, piece.some_bytes)

      index : (n * plain_chunk_bytes) / plain_chunk_bytes ≡ n
      index = omega arith
