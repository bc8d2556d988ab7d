-- ===== src/Files/Store/Acknowledged.antt =====
-- What append has confirmed is what read gives, whatever the file held before.
use distributed_chat_system.Prelude.{
  contains, Result, err, if◌then◌else◌, ◌/◌, lookup-insert, lookup, ℕ, ◌%◌, ◌≤◌, ◌≡◌, refl, sym,
  subst, ap, ◌∙◌, String, true, false, not, ◌||◌, some, List, ◌++◌, length, ltb, ◌==◌, arith,
  append_assoc, append_nil, ok, or_raise, raise_if-ok, >>=-ok, or_raise-ok, nat_eq, string_eq,
}
use distributed_chat_system.Files.Store.{
  Failure, invalid_chunk, cannot_lock, invalid_header, not_written, Store, plain_chunk_bytes,
  path_for, take_lock, write_and_sync, WriteOutcome, written, unsynced, torn, encryption_failed,
  open_header, nonce_for, transfer_key, Sodium, Stream,
}
use distributed_chat_system.Files.Store.Append.{
  AppendIo, old_bytes, plan_append, apply_plan, write_plan, append, Plan, replay, add,
  skip_confirmed, place_record, plan_record,
}
use distributed_chat_system.Files.Store.Read.{read_record, read}
use distributed_chat_system.Files.Store.Records.{IsAead, IsPiece}
use distributed_chat_system.Files.Store.Lookup.{path_for-id, not_longer}
use distributed_chat_system.Files.Store.Keeps.{
  Keeps, apply_plan-Keeps, Request, serve_all, serve_all-Keeps,
}
use distributed_chat_system.Files.Store.Refines.{same_self}
use distributed_chat_system.Files.Store.Beginning.{
  right_false, some-injective, find_confirmed, not-false, open_header-more,
}
use distributed_chat_system.Files.Store.Found.{added, find_placed}

all_written :
    (w : WriteOutcome) (old more : List ℕ) (next : ℕ) {n : ℕ}
    → (if (write_and_sync w old more).0 then ok next else err not_written) ≡ ok n
    → (write_and_sync w old more).1 ≡ old ++ more
unfolding write_and_sync
all_written written old more next e = refl
all_written unsynced old more next e = cc
all_written (torn k) old more next e = cc

read_guard :
    (offset n maximum : ℕ)
    → (offset % plain_chunk_bytes == 0) ≡ true
    → 1 ≤ n
    → n ≤ maximum
    → (not (offset % plain_chunk_bytes == 0) || (maximum == 0)) ≡ false
read_guard offset n maximum a b c = ground arith

thrown :
    (io : AppendIo) (s : Store) (id : String) (offset : ℕ) (p : List ℕ) (x : Failure) {next : ℕ}
    → (apply_plan io s id offset p (err x)).0 ≡ ok next
    → ⊥
unfolding apply_plan
thrown io s id offset p x e = cc

module _ (sodium : Sodium) (aead : IsAead sodium) (master_key : List ℕ) where
  -- The parts of an append that planned, and the read of any file that goes on from it.
  read_parts :
      (id : String) (bytes : List ℕ) (i : ℕ) (p more : List ℕ) (plan : Plan) (maximum : ℕ)
      (prefix : List ℕ) (start header : Stream) (ciphertext : List ℕ)
      → IsPiece p
      → length p ≤ maximum
      → open_header bytes ≡ ok (prefix, start)
      → skip_confirmed (length bytes) i start ≡ ok header
      → sodium.encrypt p (nonce_for prefix i) (transfer_key sodium master_key id) ≡ some ciphertext
      → place_record (length bytes) p ciphertext header ≡ ok plan
      → read_record sodium master_key id (bytes ++ (added plan ++ more)) i maximum ≡ ok p
  unfolding read_record
  read_parts id bytes i p more plan maximum prefix start header ciphertext h fits opened skipped
        sealed placed =
      let key = transfer_key sodium master_key id in
      let (reopened, size) = open_header-more bytes (added plan ++ more) (prefix, start) opened in
      let (found, end) =
        find_confirmed i (length bytes) start.position start.rest (added plan ++ more) header size
          skipped in
      let same_seal =
        some-injective (sym (aead.encrypts p (nonce_for prefix i) key h.bounded) ∙ sealed) in
      let long = ap length (sym same_seal) ∙ aead.length_seal p (nonce_for prefix i) key in
      let ciphertext_found =
        found
        ∙ find_placed (length bytes) header.position header.rest p ciphertext more plan h long end
            placed in
      rw (reopened, ciphertext_found, sym same_seal, aead.decrypts p (nonce_for prefix i) key)
        (rw (not_longer p maximum fits) refl)

  read_record-plan :
      (id : String) (bytes : List ℕ) (i : ℕ) (p more : List ℕ) (plan : Plan) (maximum : ℕ)
      → IsPiece p
      → length p ≤ maximum
      → plan_record sodium master_key id bytes i p ≡ ok plan
      → read_record sodium master_key id (bytes ++ (added plan ++ more)) i maximum ≡ ok p
  unfolding plan_record
  read_record-plan id bytes i p more plan maximum h fits e =
      let (x, opened, e1) = >>=-ok (open_header bytes) _ e in
      let (header, skipped, e2) = >>=-ok (skip_confirmed (length bytes) i x.1) _ e1 in
      let (ciphertext, sealed, placed) =
        >>=-ok
          (or_raise (sodium.encrypt p (nonce_for x.0 i) (transfer_key sodium master_key id))
            encryption_failed)
          _ e2 in
      read_parts id bytes i p more plan maximum x.0 x.1 header ciphertext h fits opened skipped
        (or_raise-ok _ encryption_failed sealed) placed

  -- What an append that planned has passed.
  record Planned (s : Store) (id : String) (offset : ℕ) (p : List ℕ) (plan : Plan) : Type 0 where
    is_piece : IsPiece p
    aligned : (offset % plain_chunk_bytes == 0) ≡ true
    valid_id : path_for id ≡ ok id
    lock_exists : contains s.locks id ≡ true
    bytes : List ℕ
    stored : lookup id s.files ≡ some bytes
    planned : plan_record sodium master_key id bytes (offset / plain_chunk_bytes) p ≡ ok plan

  plan_append-Planned :
      (io : AppendIo) (s : Store) (id : String) (offset : ℕ) (p : List ℕ) (plan : Plan)
      → plan_append sodium master_key io s id offset p ≡ ok plan
      → Planned s id offset p plan
  unfolding plan_append take_lock
  plan_append-Planned io s id offset p plan e =
      let (guarded, e1) =
        raise_if-ok
          ((length p == 0)
            || ltb plain_chunk_bytes (length p)
            || not (offset % plain_chunk_bytes == 0))
          invalid_chunk _ e in
      let (path, named, e2) = >>=-ok (path_for id) _ e1 in
      let (locked, e3) =
        raise_if-ok (not io.locked || not (contains s.locks path)) cannot_lock _ e2 in
      let (bytes, stored, planned) = >>=-ok (or_raise (lookup path s.files) invalid_header) _ e3 in
      let same_id = path_for-id id path named in
      record {
        is_piece = record {
          some_bytes = ground (arith, guarded);
          bounded = ground (arith, guarded);
        };
        aligned = ground (arith, guarded);
        valid_id = subst (λ k. path_for id ≡ ok k) same_id named;
        lock_exists =
            subst (λ k. contains s.locks k ≡ true) same_id
              (not-false (contains s.locks path)
                (right_false (not io.locked) (not (contains s.locks path)) locked));
        bytes = bytes;
        stored =
            subst (λ k. lookup k s.files ≡ some bytes) same_id
              (or_raise-ok (lookup path s.files) invalid_header stored);
        planned = planned;
      }

  -- An append that returned left the file with what the plan adds.
  applied :
      (io : AppendIo) (s : Store) (id : String) (offset : ℕ) (p bytes : List ℕ) (plan : Plan)
      (next : ℕ)
      → lookup id s.files ≡ some bytes
      → (apply_plan io s id offset p (ok plan)).0 ≡ ok next
      → lookup id (apply_plan io s id offset p (ok plan)).1.files ≡ some (bytes ++ added plan)
  unfolding apply_plan write_plan
  applied io s id offset p bytes replay next stored e = stored ∙ ap some (sym (append_nil bytes))
  applied io s id offset p bytes (add more) next stored e =
      lookup-insert id id _ s.files
      ∙ rw (same_self id) (
          ap some (
            all_written io.writes (old_bytes (lookup id s.files)) more _ e
            ∙ ap (λ o. old_bytes o ++ more) stored))

  read_applied :
      (io : AppendIo) (s t : Store) (id : String) (offset next : ℕ) (p : List ℕ) (maximum : ℕ)
      (r : Result Failure Plan)
      → ((plan : Plan) → r ≡ ok plan → Planned s id offset p plan)
      → (apply_plan io s id offset p r).0 ≡ ok next
      → Keeps (apply_plan io s id offset p r).1 t
      → length p ≤ maximum
      → read sodium master_key true t id offset maximum ≡ ok p
  unfolding read take_lock
  read_applied io s t id offset next p maximum (err x) passed e keeps fits =
      absurd (thrown io s id offset p x e)
  read_applied io s t id offset next p maximum (ok plan) passed e keeps fits =
      let k = passed plan refl in
      let (more, grown) =
        keeps.grows id _ (applied io s id offset p k.bytes plan next k.stored e) in
      let locked =
        keeps.locks_stay id
          ((apply_plan-Keeps io s id offset p (ok plan)).locks_stay id k.lock_exists) in
      rw
        (
          read_guard offset (length p) maximum k.aligned k.is_piece.some_bytes fits,
          k.valid_id,
          locked,
          grown,
          append_assoc k.bytes (added plan) more,
        )
        (read_record-plan id k.bytes (offset / plain_chunk_bytes) p more plan maximum k.is_piece
          fits k.planned)

  -- Also in every later store in which attachments only grew.
  pub read-append :
      (io : AppendIo) (s t : Store) (id : String) (offset next : ℕ) (p : List ℕ) (maximum : ℕ)
      → (append sodium master_key io s id offset p).0 ≡ ok next
      → Keeps (append sodium master_key io s id offset p).1 t
      → length p ≤ maximum
      → read sodium master_key true t id offset maximum ≡ ok p
  unfolding append
  read-append io s t id offset next p maximum e keeps fits =
      read_applied io s t id offset next p maximum (plan_append sodium master_key io s id offset p)
        (plan_append-Planned io s id offset p) e keeps fits

  -- Whatever the files are and whatever fails: when EncryptedFileStore::append of a piece has
  -- returned, EncryptedFileStore::read at the same offset, with the lock granted and room for the
  -- piece, gives the piece, after whatever creations and appends in between, with whatever failures.
  pub read-acknowledged :
      (io : AppendIo) (s : Store) (id : String) (offset next : ℕ) (p : List ℕ) (maximum : ℕ)
      (qs : List Request)
      → (append sodium master_key io s id offset p).0 ≡ ok next
      → length p ≤ maximum
      → read sodium master_key true
          (serve_all sodium master_key (append sodium master_key io s id offset p).1 qs)
          id
          offset
          maximum
        ≡ ok p
  read-acknowledged io s id offset next p maximum qs e fits =
      let after = (append sodium master_key io s id offset p).1 in
      read-append io s (serve_all sodium master_key after qs) id offset next p maximum e
        (serve_all-Keeps sodium master_key qs after) fits
