-- ===== src/Files/Store/Records.antt =====
-- The abstract view of an attachment, a list of pieces, and what reading its bytes gives.
use distributed_chat_system.Prelude.{
  ℕ, suc, ◌+◌, ◌%◌, ◌^◌, ◌≤◌, ◌<◌, ◌≡◌, refl, ap, false, some, List, [], ◌∷◌, ◌++◌, length, ltb,
  arith, length-append, take-append, drop-append, ok, nat_eq,
}
use distributed_chat_system.Files.Store.{
  Sodium, plain_chunk_bytes, skip, read_bytes, length_at, read_length, write_length, nonce_for,
}

-- What libsodium documents: encryption of a piece succeeds, a ciphertext is longer than its
-- plaintext by the tag, and decryption gives the plaintext back.
pub record IsAead (sodium : Sodium) : Type 0 where
  pub seal : List ℕ → List ℕ → List ℕ → List ℕ
  pub encrypts :
      (p n k : List ℕ) → length p ≤ plain_chunk_bytes → sodium.encrypt p n k ≡ some (seal p n k)
  pub length_seal : (p n k : List ℕ) → length (seal p n k) ≡ length p + 16
  pub decrypts : (p n k : List ℕ) → sodium.decrypt (seal p n k) n k ≡ some p

pub record IsPiece (p : List ℕ) : Type 0 where
  pub some_bytes : 1 ≤ length p
  pub bounded : length p ≤ plain_chunk_bytes

module _ (seal : List ℕ → List ℕ → List ℕ → List ℕ) (key prefix : List ℕ) where
  unfoldable pub seal_piece : ℕ → List ℕ → List ℕ
  seal_piece index p = seal p (nonce_for prefix index) key

  -- The records of the pieces from an index on, before other bytes.
  unfoldable pub records : ℕ → List (List ℕ) → List ℕ → List ℕ
  unfolding write_length
  records index [] tail = tail
  records index (p ∷ ps) tail =
      write_length (length p % 2 ^ 32) ++ (seal_piece index p ++ records (suc index) ps tail)

pub read_length-write_length :
    (n v : ℕ) (rest : List ℕ)
    → v < 2 ^ 32
    → read_length (record { position = n; rest = write_length v ++ rest })
      ≡ ok (v, record { position = n + 4; rest = rest })
unfolding read_length length_at write_length
read_length-write_length n v rest h =
    ap (λ w. ok (w, record { position = n + 4; rest = rest })) (omega arith)

pub read_bytes-append :
    (n : ℕ) (xs rest : List ℕ)
    → read_bytes (length xs) (record { position = n; rest = xs ++ rest })
      ≡ some (xs, record { position = n + length xs; rest = rest })
unfolding read_bytes skip
read_bytes-append n xs rest = rw (ltb_append, take-append, drop-append) refl
  where
    ltb_append : ltb (length (xs ++ rest)) (length xs) ≡ false
    ltb_append = ground (arith, length-append xs rest)
