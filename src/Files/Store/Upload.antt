-- ===== src/Files/Store/Upload.antt =====
-- A whole upload: create, then append piece after piece; and the end of an attachment.
use distributed_chat_system.Prelude.{
  ℕ, suc, ◌+◌, ◌*◌, ◌^◌, ◌≤◌, ◌<◌, ◌≡◌, refl, sym, subst, ap, ◌∙◌, inl, inr, String, Bool, true,
  false, ◌&&◌, some, List, [], ◌∷◌, ◌++◌, length, ==_iff, lookup, insert, lookup-insert, contains,
  is_some, All, get_elem?, arith, append_assoc, append_nil, Bool-cases, if◌then◌else◌, Result, ok,
  err, Result-cases, string_eq, nat_eq,
}
use distributed_chat_system.Files.Store.{
  Failure, not_written, Sodium, Store, WriteOutcome, written, unsynced, torn, write_and_sync,
  plain_chunk_bytes, magic, path_for,
}
use distributed_chat_system.Files.Types.{max_file_bytes}
use distributed_chat_system.Files.Store.Append.{append}
use distributed_chat_system.Files.Store.Read.{read}
use distributed_chat_system.Files.Store.Keeps.{IsPiece-at}
use distributed_chat_system.Files.Store.Life.{CreateIo, seed_lock, create_locked, create}
use distributed_chat_system.Files.Store.Records.{IsAead, IsPiece, records}
use distributed_chat_system.Files.Store.Lookup.{path_for-id, attachment, read-Holds}
use distributed_chat_system.Files.Store.Place.{append_piece, cons_some}
use distributed_chat_system.Files.Store.Content.{Full, size}
use distributed_chat_system.Files.Store.Refines.{
  same_self, HoldsExactly, Implements, append-Implements, working,
}

abbrev pub AllFull : List (List ℕ) → Type 0
AllFull = All (λ p. length p ≡ plain_chunk_bytes)

append_piece_end :
    (qs : List (List ℕ)) (p : List ℕ)
    → AllFull qs
    → append_piece qs (length qs) p ≡ some (qs ++ p ∷ [])
unfolding append_piece
append_piece_end [] p full = refl
append_piece_end (q ∷ qs) p full =
    rw ((==_iff (length q) plain_chunk_bytes).1 full.0)
      (ap (cons_some q) (append_piece_end qs p full.1))

AllFull-append :
    (qs : List (List ℕ)) (p : List ℕ)
    → AllFull qs
    → length p ≡ plain_chunk_bytes
    → AllFull (qs ++ p ∷ [])
AllFull-append [] p full h = (h, tt)
AllFull-append (q ∷ qs) p full h = (full.0, AllFull-append qs p full.1 h)

first_lock : (id : String) (locks : List String) → contains (id ∷ locks) id ≡ true
unfolding contains
first_lock id locks = ground (arith, same_self id)

length-snoc : (qs : List (List ℕ)) (p : List ℕ) → length (qs ++ p ∷ []) ≡ suc (length qs)
length-snoc [] p = refl
length-snoc (q ∷ qs) p = ap suc (length-snoc qs p)

module _ (sodium : Sodium) (master_key : List ℕ) where
  -- The appends of a client that sends its pieces in order, from an index on.
  unfoldable pub upload : Store → String → ℕ → List (List ℕ) → Store
  unfolding append
  upload s id i [] = s
  upload s id i (p ∷ ps) =
      upload (append sodium master_key working s id (i * plain_chunk_bytes) p).1 id (suc i) ps

module _ (sodium : Sodium) (aead : IsAead sodium) (master_key : List ℕ) where
  one_piece :
      (s : Store) (id : String) (qs : List (List ℕ)) (p : List ℕ)
      → HoldsExactly sodium aead master_key s id qs
      → AllFull qs
      → IsPiece p
      → length qs * plain_chunk_bytes + length p < 2 ^ 64
      → HoldsExactly sodium aead master_key
          (append sodium master_key working s id (length qs * plain_chunk_bytes) p).1
          id
          (qs ++ p ∷ [])
  one_piece s id qs p h full piece small =
      (subst
        (λ o.
          Implements sodium aead master_key s id (length qs * plain_chunk_bytes + length p) o
            (append sodium master_key working s id (length qs * plain_chunk_bytes) p))
        (append_piece_end qs p full)
        (append-Implements sodium aead master_key s id qs (length qs) p h piece small)).1

  -- An attachment that holds exactly full pieces, to which more pieces are appended in order by
  -- calls that the system does not let fail, all of them full but the last, with less than 2^64
  -- bytes in all, holds exactly the old pieces and then the new ones.
  pub upload-HoldsExactly :
      (ps qs : List (List ℕ)) (s : Store) (id : String)
      → HoldsExactly sodium aead master_key s id qs
      → AllFull qs
      → All IsPiece ps
      → Full ps
      → length qs * plain_chunk_bytes + size ps < 2 ^ 64
      → HoldsExactly sodium aead master_key
          (upload sodium master_key s id (length qs) ps)
          id
          (qs ++ ps)
  unfolding upload
  upload-HoldsExactly [] qs s id h full pieces last small =
      subst (HoldsExactly sodium aead master_key s id) (sym (append_nil qs)) h
  upload-HoldsExactly (p ∷ []) qs s id h full pieces last small =
      one_piece s id qs p h full pieces.0 (omega (arith, small))
  upload-HoldsExactly (p ∷ r ∷ rs) qs s id h full pieces last small =
      let s' = (append sodium master_key working s id (length qs * plain_chunk_bytes) p).1 in
      subst (HoldsExactly sodium aead master_key _ id) (append_assoc qs (p ∷ []) (r ∷ rs)) (
        subst
          (λ i.
            HoldsExactly sodium aead master_key (upload sodium master_key s' id i (r ∷ rs)) id
              ((qs ++ p ∷ []) ++ r ∷ rs))
          (length-snoc qs p)
          (upload-HoldsExactly (r ∷ rs) (qs ++ p ∷ []) s' id
            (one_piece s id qs p h full pieces.0 (omega (arith, small)))
            (AllFull-append qs p full last.0) pieces.1 last.1
            (omega (arith, small, last.0, length-snoc qs p))))

-- What holds afterwards, unless something was thrown.
abbrev pub IfOk : (Store → Type 0) → Result Failure (Unit {0}) × Store → Type 0
IfOk P (ok u, after) = P after
IfOk P (err e, after) = Unit

write-IfOk :
    (P : Store → Type 0) (w : WriteOutcome) (b : Bool) (bytes : List ℕ) (after : List ℕ → Store)
    → P (after bytes)
    → IfOk P (
      if (write_and_sync w [] bytes).0 && b then ok tt else err not_written,
      after (write_and_sync w [] bytes).1,
    )
unfolding write_and_sync
write-IfOk P written true bytes after h = h
write-IfOk P written false bytes after h = tt
write-IfOk P unsynced b bytes after h = tt
write-IfOk P (torn n) b bytes after h = tt

create_locked-IfOk :
    (P : Store → Type 0) (io : CreateIo) (s : Store) (id : String)
    → P (record s { files = insert id (magic ++ io.random_prefix) s.files })
    → IfOk P (create_locked io s id)
unfolding create_locked
create_locked-IfOk P io s id h = elim (Bool-cases (is_some (lookup id s.files))) [
  | inl e ↦ rw e tt
  | inr e ↦ elim (Bool-cases io.opened) [
    | inr o ↦ rw (e, o) tt
    | inl o ↦
        rw (e, o)
          (write-IfOk P io.writes io.directory_synced (magic ++ io.random_prefix)
            (λ bytes. record s { files = insert id bytes s.files }) h)
  ]
]

seeded : (id : String) (s : Store) → contains (seed_lock id s).locks id ≡ true
unfolding seed_lock
seeded id s = elim (Bool-cases (contains s.locks id)) [
  | inl e ↦ rw e e
  | inr e ↦ rw e (first_lock id s.locks)
]

module _ (sodium : Sodium) (aead : IsAead sodium) (master_key : List ℕ) where
  created :
      (io : CreateIo) (s : Store) (id : String)
      → path_for id ≡ ok id
      → contains s.locks id ≡ true
      → length io.random_prefix ≡ 16
      → HoldsExactly sodium aead master_key
          (record s { files = insert id (magic ++ io.random_prefix) s.files })
          id
          []
  unfolding attachment records
  created io s id valid lock random = record {
    holds = record {
      valid_id = valid;
      lock_exists = lock;
      prefix = io.random_prefix;
      prefix_size = random;
      pieces = tt;
      tail = [];
      stored =
          lookup-insert id id _ s.files
          ∙ rw (same_self id) (ap (λ p. some (magic ++ p)) (sym (append_nil io.random_prefix)));
    };
    no_tail = refl;
  }

  -- Whatever the system does, when EncryptedFileStore::create with a random prefix of sixteen bytes
  -- returns, the attachment is there, with its lock file, and holds no piece and nothing else.
  pub create-HoldsExactly :
      (io : CreateIo) (s : Store) (id : String)
      → length io.random_prefix ≡ 16
      → IfOk (λ after. HoldsExactly sodium aead master_key after id []) (create io s id)
  unfolding create
  create-HoldsExactly io s id random = elim (Result-cases (path_for id)) [
    | inl (e, h) ↦ rw (h, create) tt
    | inr (path, h) ↦
        rw (h, create)
          (elim (Bool-cases io.seeded) [
            | inr a ↦ rw a tt
            | inl a ↦ elim (Bool-cases io.locked) [
              | inr b ↦ rw (a, b) tt
              | inl b ↦
                  let same_id = path_for-id id path h in
                  let P = λ (after : Store). HoldsExactly sodium aead master_key after path [] in
                  rw (a, b)
                    (subst
                      (λ k.
                        IfOk (λ after. HoldsExactly sodium aead master_key after k [])
                          (create_locked io (seed_lock path s) path))
                      same_id
                      (create_locked-IfOk P io (seed_lock path s) path (
                        created io (seed_lock path s) path
                          (subst (λ k. path_for k ≡ ok path) (sym same_id) h) (seeded path s)
                          random)))
            ]
          ])
  ]

  -- When EncryptedFileStore::create with a random prefix of sixteen bytes has returned, and pieces
  -- of one byte to 32 KiB, all of them full but the last and of at most 100 MiB in all, are appended
  -- in order by calls that the system does not let fail: EncryptedFileStore::read at the offset of
  -- each piece gives this piece.
  pub read-upload :
      (io : CreateIo) (s after : Store) (id : String) (ps : List (List ℕ)) (n : ℕ) (p : List ℕ)
      → length io.random_prefix ≡ 16
      → create io s id ≡ (ok tt, after)
      → All IsPiece ps
      → Full ps
      → size ps ≤ max_file_bytes
      → get_elem? ps n ≡ some p
      → read sodium master_key true
          (upload sodium master_key after id 0 ps)
          id
          (n * plain_chunk_bytes)
          plain_chunk_bytes
        ≡ ok p
  read-upload io s after id ps n p random made pieces full small e =
      let start =
        subst (IfOk (λ (t : Store). HoldsExactly sodium aead master_key t id [])) made
          (create-HoldsExactly io s id random) in
      let done =
        upload-HoldsExactly sodium aead master_key ps [] after id start tt pieces full
          (omega (arith, small)) in
      let piece = IsPiece-at ps n p pieces e in
      read-Holds sodium aead master_key (upload sodium master_key after id 0 ps) id ps p n
        plain_chunk_bytes done.holds piece e piece.bounded
