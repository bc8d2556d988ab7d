-- ===== src/Files/Store/Content.antt =====
-- EncryptedFileStore::sha256: the loop ends, and the digest is that of the whole content.
use distributed_chat_system.Prelude.{
  ℕ, zero, suc, ◌+◌, ◌*◌, ◌/◌, ◌%◌, ◌^◌, ◌-◌, ◌≤◌, ◌<◌, ◌≡◌, refl, sym, ap, ◌∙◌, String, true,
  false, some, List, [], ◌∷◌, ◌++◌, length, ltb, get_elem?, All, arith, append_nil, zero_add, ok,
}
use distributed_chat_system.Files.Types.{max_file_bytes}
use distributed_chat_system.Files.Store.{Sodium, Store, plain_chunk_bytes}
use distributed_chat_system.Files.Store.Read.{hash_from, finish_hash, sha256}
use distributed_chat_system.Files.Store.Records.{IsAead, IsPiece}
use distributed_chat_system.Files.Store.Lookup.{Holds, read-Holds}

-- All pieces but the last are full.
abbrev pub Full : List (List ℕ) → Type 0
Full [] = Unit
Full (p ∷ []) = Unit
Full (p ∷ q ∷ qs) = (length p ≡ plain_chunk_bytes) × Full (q ∷ qs)

abbrev pub content : List (List ℕ) → List ℕ
content [] = []
content (p ∷ ps) = p ++ content ps

abbrev pub size : List (List ℕ) → ℕ
size [] = 0
size (p ∷ ps) = length p + size ps

-- What libsodium documents of crypto_hash_sha256_update: parts may be hashed one by one.
pub record IsStreaming {State : Type 0} (update : State → List ℕ → State) : Type 0 where
  pub joins : (s : State) (a b : List ℕ) → update (update s a) b ≡ update s (a ++ b)
  pub empties : (s : State) → update s [] ≡ s

length-le_size :
    (ps : List (List ℕ))
    → All IsPiece ps
    → Full ps
    → length ps * plain_chunk_bytes ≤ size ps + (plain_chunk_bytes - 1)
length-le_size [] pieces full = omega arith
length-le_size (p ∷ []) pieces full = omega (arith, pieces.0.some_bytes)
length-le_size (p ∷ q ∷ qs) pieces full =
    omega (arith, full.0, length-le_size (q ∷ qs) pieces.1 full.1)

add_zero : (n : ℕ) → n ≡ n + 0
add_zero n = omega arith

first :
    (ps : List (List ℕ)) (n : ℕ) (p : List ℕ)
    → get_elem? ps (n + 0) ≡ some p
    → get_elem? ps n ≡ some p
first ps n p e = ap (get_elem? ps) (add_zero n) ∙ e

suc_add : (n j : ℕ) → suc n + j ≡ n + suc j
suc_add n j = omega arith

past : (total offset : ℕ) → total ≤ offset → ltb offset total ≡ false
past total offset h = ground arith

within : (total offset : ℕ) → offset < total → ltb offset total ≡ true
within total offset h = ground arith

module _ (sodium : Sodium) (aead : IsAead sodium) (master_key : List ℕ) {State : Type 0}
    (update : State → List ℕ → State) (streaming : IsStreaming update) where
  hash_done :
      (fuel : ℕ) (store : Store) (id : String) (total offset : ℕ) (state : State)
      → total ≤ offset
      → hash_from sodium master_key update fuel (λ _. true) store id total offset state
        ≡ some (ok state)
  unfolding hash_from
  hash_done zero store id total offset state h = rw (past total offset h) refl
  hash_done (suc n) store id total offset state h = rw (past total offset h) refl

  hash_round :
      (fuel : ℕ) (store : Store) (id : String) (ps : List (List ℕ)) (total n : ℕ) (p : List ℕ)
      (state : State)
      → Holds sodium aead master_key store id ps
      → IsPiece p
      → get_elem? ps n ≡ some p
      → n * plain_chunk_bytes < total
      → total ≤ max_file_bytes
      → hash_from sodium master_key update
          (suc fuel)
          (λ _. true)
          store
          id
          total
          (n * plain_chunk_bytes)
          state
        ≡ hash_from sodium master_key update fuel
            (λ _. true)
            store
            id
            total
            (suc n * plain_chunk_bytes)
            (update state p)
  unfolding hash_from
  hash_round fuel store id ps total n p state h piece e more small =
      rw
        (
          within total (n * plain_chunk_bytes) more,
          read-Holds sodium aead master_key store id ps p n plain_chunk_bytes h piece e
              piece.bounded,
          next_offset,
        )
        refl
    where
      next_offset : (n * plain_chunk_bytes + plain_chunk_bytes) % 2 ^ 64 ≡ suc n * plain_chunk_bytes
      next_offset = omega arith

  hash_from_lem :
      (rest : List (List ℕ)) (fuel : ℕ) (store : Store) (id : String) (ps : List (List ℕ))
      (n total : ℕ) (state : State)
      → Holds sodium aead master_key store id ps
      → All IsPiece rest
      → Full rest
      → ((j : ℕ) → get_elem? ps (n + j) ≡ get_elem? rest j)
      → length rest ≤ fuel
      → total ≡ n * plain_chunk_bytes + size rest
      → total ≤ max_file_bytes
      → hash_from sodium master_key update fuel
          (λ _. true)
          store
          id
          total
          (n * plain_chunk_bytes)
          state
        ≡ some (ok (update state (content rest)))
  hash_from_lem [] fuel store id ps n total state h pieces full at enough e small =
      hash_done fuel store id total (n * plain_chunk_bytes) state (omega (arith, e))
      ∙ ap (λ s. some (ok s)) (sym (streaming.empties state))
  hash_from_lem (p ∷ rs) zero store id ps n total state h pieces full at enough e small =
      absurd (omega (arith, enough))
  hash_from_lem (p ∷ []) (suc fuel) store id ps n total state h pieces full at enough e small =
      hash_round fuel store id ps total n p state h pieces.0 (first ps n p (at 0))
        (omega (arith, e, pieces.0.some_bytes)) small
      ∙ hash_done fuel store id total (suc n * plain_chunk_bytes) (update state p)
          (omega (arith, e, pieces.0.bounded))
      ∙ ap (λ xs. some (ok (update state xs))) (sym (append_nil p))
  hash_from_lem (p ∷ q ∷ qs) (suc fuel) store id ps n total state h pieces full at enough e small =
      hash_round fuel store id ps total n p state h pieces.0 (first ps n p (at 0))
        (omega (arith, e, pieces.0.some_bytes)) small
      ∙ hash_from_lem (q ∷ qs) fuel store id ps (suc n) total (update state p) h pieces.1 full.1
          (λ j. ap (get_elem? ps) (suc_add n j) ∙ at (suc j)) (omega (arith, enough))
          (omega (arith, e, full.0)) small
      ∙ ap (λ s. some (ok s)) (streaming.joins state p (content (q ∷ qs)))

  -- When an attachment of at most 100 MiB holds pieces of which all but the last are full, the lock
  -- is granted in each round and the hash may be fed in parts: EncryptedFileStore::sha256 for the
  -- total size of the pieces ends with a result, the digest of their whole content in order.
  pub sha256-content :
      (init : State) (final_hex : State → String) (store : Store) (id : String) (ps : List (List ℕ))
      → Holds sodium aead master_key store id ps
      → Full ps
      → size ps ≤ max_file_bytes
      → sha256 sodium master_key update init final_hex (λ _. true) store id (size ps)
        ≡ some (ok (final_hex (update init (content ps))))
  unfolding sha256
  sha256-content init final_hex store id ps h full small = ap (finish_hash final_hex) (
      hash_from_lem ps ((size ps + (plain_chunk_bytes - 1)) / plain_chunk_bytes) store id ps 0
        (size ps) init h h.pieces full (λ j. ap (get_elem? ps) (zero_add j))
        (omega (arith, length-le_size ps h.pieces full)) (omega arith) small)
