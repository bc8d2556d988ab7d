-- ===== src/Resource/Confirmed.antt =====
-- What a confirmed upload request promises: its bytes are in the store.
use distributed_chat_system.Prelude.{
  ℕ, zero, suc, ◌+◌, ◌*◌, ◌≤◌, ◌≡◌, subst, ap, ◌∙◌, inl, inr, ℤ, true, String, some, List, [], ◌∷◌,
  ltb, length, drop, get_elem?, list_beq, list_beq_iff, length-take-le, All, arith, Bool-cases,
  Result-cases, Result, ok, err, nat_eq, string_eq,
}
use distributed_chat_system.Files.Types.{Transfer}
use distributed_chat_system.Files.Store.{Sodium, Store, plain_chunk_bytes}
use distributed_chat_system.Files.Store.Append.{append}
use distributed_chat_system.Files.Store.Read.{read}
use distributed_chat_system.Files.Store.Records.{IsAead}
use distributed_chat_system.Files.Store.Keeps.{
  Keeps, Keeps-refl, Keeps-trans, append-Keeps, Request, serve_all, serve_all-Keeps,
}
use distributed_chat_system.Files.Store.Acknowledged.{read-append}
use distributed_chat_system.Files.Store.Beginning.{some-injective}
use distributed_chat_system.Files.Store.Stable.{read-Keeps}
use distributed_chat_system.Resource.{Problem}
use distributed_chat_system.Resource.Chunk.{
  RoundIo, ChunkIo, State, body_parts, parts, confirm, chunk_loop, check_chunk, chunk,
}

-- No part is longer than a piece.
AllShort : List (List ℕ) → Type 0
AllShort = All (λ p. length p ≤ plain_chunk_bytes)

parts-AllShort : (n : ℕ) (bytes : List ℕ) → AllShort (parts n bytes)
unfolding parts AllShort
parts-AllShort zero bytes = tt
parts-AllShort (suc n) bytes =
    (length-take-le plain_chunk_bytes bytes, parts-AllShort n (drop plain_chunk_bytes bytes))

short_at :
    (rest : List (List ℕ)) (j : ℕ) (part : List ℕ)
    → AllShort rest
    → get_elem? rest j ≡ some part
    → length part ≤ plain_chunk_bytes
unfolding AllShort
short_at [] j part short e = ground arith
short_at (q ∷ rest) zero part short e = ground (arith, short.0)
short_at (q ∷ rest) (suc j) part short e = short_at rest j part short.1 e

add_zero : (n : ℕ) → n + 0 * plain_chunk_bytes ≡ n
add_zero n = omega arith

add_round :
    (n j : ℕ) → n + suc j * plain_chunk_bytes ≡ n + plain_chunk_bytes + j * plain_chunk_bytes
add_round n j = omega arith

module _ (sodium : Sodium) (aead : IsAead sodium) (master_key : List ℕ) where
  -- Attachments only grew, and each part can be read at its offset.
  pub record HasParts (before : Store) (id : String) (at : ℕ) (rest : List (List ℕ)) (after : Store)
      : Type 0 where
    pub keeps : Keeps before after
    pub has :
        (j : ℕ) (part : List ℕ)
        → get_elem? rest j ≡ some part
        → read sodium master_key true after id (at + j * plain_chunk_bytes) plain_chunk_bytes
          ≡ ok part

  -- If no problem is answered.
  abbrev pub Confirmed : Store → String → ℕ → List (List ℕ) → Result Problem ℕ × State → Type 0
  Confirmed before id at rest (ok v, (after, rows)) = HasParts before id at rest after
  Confirmed before id at rest (err e, s) = Unit

  part_at :
      (before between after : Store) (id : String) (at : ℕ) (part : List ℕ) (rest : List (List ℕ))
      → read sodium master_key true after id at plain_chunk_bytes ≡ ok part
      → HasParts between id (at + plain_chunk_bytes) rest after
      → (j : ℕ) (p : List ℕ) → get_elem? (part ∷ rest) j ≡ some p
      → read sodium master_key true after id (at + j * plain_chunk_bytes) plain_chunk_bytes ≡ ok p
  part_at before between after id at part rest first h zero p e =
      ap (λ n. read sodium master_key true after id n plain_chunk_bytes) (add_zero at)
      ∙ first
      ∙ ap ok (some-injective e)
  part_at before between after id at part rest first h (suc j) p e =
      ap (λ n. read sodium master_key true after id n plain_chunk_bytes) (add_round at j)
      ∙ h.has j p e

  confirm_part :
      (before between : Store) (id : String) (at : ℕ) (part : List ℕ) (rest : List (List ℕ))
      (r : Result Problem ℕ × State)
      → Keeps before between
      → ((after : Store)
          → Keeps between after
          → read sodium master_key true after id at plain_chunk_bytes ≡ ok part)
      → Confirmed between id (at + plain_chunk_bytes) rest r
      → Confirmed before id at (part ∷ rest) r
  confirm_part before between id at part rest (err e, s) keeps has h = tt
  confirm_part before between id at part rest (ok v, (after, rows)) keeps has h = record {
    keeps = Keeps-trans before between after keeps h.keeps;
    has = part_at before between after id at part rest (has after h.keeps) h;
  }

  chunk_loop-Confirmed :
      (rest : List (List ℕ)) (io : ℕ → RoundIo) (id : String) (k at confirmed : ℕ) (store : Store)
      (rows : List Transfer)
      → AllShort rest
      → Confirmed store id at rest
          (chunk_loop sodium master_key io id k at confirmed rest (store, rows))
  unfolding chunk_loop AllShort
  chunk_loop-Confirmed [] io id k at confirmed store rows short = record {
    keeps = Keeps-refl store;
    has = λ j p e. ground arith;
  }
  chunk_loop-Confirmed (part ∷ rest) io id k at confirmed store rows short =
      elim (Bool-cases (ltb at confirmed)) [
        | inl old ↦
            elim (Result-cases
              (read sodium master_key (io k).read_locked store id at (length part))) [
                | inl (x, h) ↦ rw (old, h, chunk_loop) tt
                | inr (previous, h) ↦ elim (Bool-cases (list_beq previous part)) [
                  | inr differs ↦ rw (old, h, differs, chunk_loop) tt
                  | inl equal ↦
                      rw (old, h, equal, chunk_loop)
                        (confirm_part store store id at part rest _ (Keeps-refl store)
                          (λ after keeps.
                            read-Keeps sodium master_key (io k).read_locked store after id at
                              (length part) plain_chunk_bytes part
                              (h ∙ ap ok ((list_beq_iff previous part).0 equal)) keeps short.0
                              (omega arith))
                          (chunk_loop-Confirmed rest io id (suc k) (at + plain_chunk_bytes)
                            confirmed store rows short.1))
                ]
              ]
        | inr new ↦
            elim (Result-cases (append sodium master_key (io k).appends store id at part).0) [
              | inl (x, h) ↦ rw (new, h, chunk_loop) tt
              | inr (next, h) ↦
                  let after = (append sodium master_key (io k).appends store id at part).1 in
                  elim (Bool-cases (confirm (io k) id confirmed next rows).0) [
                    | inr lost ↦ rw (new, h, lost, chunk_loop) tt
                    | inl told ↦
                        rw (new, h, told, chunk_loop)
                          (confirm_part store after id at part rest _
                            (append-Keeps sodium master_key (io k).appends store id at part)
                            (λ later keeps.
                              read-append sodium aead master_key (io k).appends store later id at
                                next part plain_chunk_bytes h keeps short.0)
                            (chunk_loop-Confirmed rest io id (suc k) (at + plain_chunk_bytes) next
                              after (confirm (io k) id confirmed next rows).1 short.1))
                  ]
            ]
      ]

  chunk-Confirmed :
      (io : ChunkIo) (uid : ℤ) (id : String) (offset : ℕ) (bytes : List ℕ) (store : Store)
      (rows : List Transfer)
      → Confirmed store id offset
          (body_parts bytes)
          (chunk sodium master_key io uid id offset bytes (store, rows))
  unfolding chunk
  chunk-Confirmed io uid id offset bytes store rows =
      elim (Result-cases (check_chunk io uid id offset bytes rows)) [
        | inl (x, h) ↦ rw (h, chunk) tt
        | inr (f, h) ↦
            rw (h, chunk)
              (chunk_loop-Confirmed (body_parts bytes) io.rounds id 0 offset f.file.uploaded_size
                store rows (parts-AllShort _ bytes))
      ]

  -- Whatever the files and the table are and whatever fails: when Service::chunk has answered an
  -- upload of bytes at an offset without a problem, each of its parts of 32 KiB (the last may be
  -- shorter) is what EncryptedFileStore::read gives at the part's offset, with the lock granted,
  -- after whatever creations and appends in between, with whatever failures.
  pub chunk-read :
      (io : ChunkIo) (uid : ℤ) (id : String) (offset : ℕ) (bytes : List ℕ) (store after : Store)
      (rows rows' : List Transfer) (v j : ℕ) (part : List ℕ) (qs : List Request)
      → chunk sodium master_key io uid id offset bytes (store, rows) ≡ (ok v, (after, rows'))
      → get_elem? (body_parts bytes) j ≡ some part
      → read sodium master_key true
          (serve_all sodium master_key after qs)
          id
          (offset + j * plain_chunk_bytes)
          plain_chunk_bytes
        ≡ ok part
  chunk-read io uid id offset bytes store after rows rows' v j part qs e p =
      let h =
        subst (Confirmed store id offset (body_parts bytes)) e
          (chunk-Confirmed io uid id offset bytes store rows) in
      read-Keeps sodium master_key true after (serve_all sodium master_key after qs) id
        (offset + j * plain_chunk_bytes) plain_chunk_bytes plain_chunk_bytes part (h.has j part p)
        (serve_all-Keeps sodium master_key qs after)
        (short_at (body_parts bytes) j part (parts-AllShort _ bytes) p) (omega arith)
