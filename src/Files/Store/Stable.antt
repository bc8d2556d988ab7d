-- ===== src/Files/Store/Stable.antt =====
-- What read has given once it gives again, as long as attachments only grow.
use distributed_chat_system.Prelude.{
  ℕ, zero, suc, ◌+◌, ◌*◌, ◌/◌, ◌%◌, ◌^◌, ◌≤◌, ◌≡◌, refl, sym, ap, ◌∙◌, String, Bool, true, false,
  not, ◌||◌, List, [], ◌∷◌, ◌++◌, take, drop, length, ltb, ◌==◌, arith, lookup, contains, Result,
  ok, err, or_raise, raise_if-ok, >>=-ok, or_raise-ok, ok-injective, nat_eq, string_eq,
}
use distributed_chat_system.Files.Store.{
  Failure, invalid_record, truncated, invalid_offset, cannot_lock, invalid_header,
  authentication_failed, buffer_too_small, Sodium, Store, Stream, plain_chunk_bytes, tag_bytes,
  read_bytes, skip, read_length, length_at, path_for, take_lock, open_header, nonce_for,
  transfer_key,
}
use distributed_chat_system.Files.Store.Read.{next_record, find_record, read_record, read}
use distributed_chat_system.Files.Store.Keeps.{Keeps}
use distributed_chat_system.Files.Store.Lookup.{not_longer}
use distributed_chat_system.Files.Store.Beginning.{
  record_body, record_body-more, next_record-cons, unless_none, open_header-more, not-false,
  right_false,
}

record_body-ok :
    (v position : ℕ) (rest : List ℕ) (x : ℕ × List ℕ × Stream)
    → record_body v (record { position = position; rest = rest }) ≡ ok x
    → (1 ≤ v)
      × (v ≤ plain_chunk_bytes)
      × (v + tag_bytes ≤ length rest)
      × ((
        v,
        take (v + tag_bytes) rest,
        record { position = position + (v + tag_bytes); rest = drop (v + tag_bytes) rest },
      )
          ≡ x)
unfolding record_body read_bytes skip
record_body-ok v position rest x e =
    let (sized, e1) = raise_if-ok ((v == 0) || ltb plain_chunk_bytes v) invalid_record _ e in
    let (y, taken, e2) =
      >>=-ok
        (or_raise (read_bytes (v + tag_bytes) (record { position = position; rest = rest }))
          truncated)
        _ e1 in
    let (enough, same_bytes) =
      unless_none (ltb (length rest) (v + tag_bytes)) (or_raise-ok _ truncated taken) in
    (
      ground (arith, sized),
      ground (arith, sized),
      ground arith,
      ap (λ (z : List ℕ × Stream). (v, z.0, z.1)) same_bytes ∙ ok-injective e2,
    )

err_not_ok : {A : Type 0} {x : Failure} {y : A} → ◌≡◌ {A = Result Failure A} (err x) (ok y) → ⊥
err_not_ok e = cc

find_short : (n : ℕ) (s : Stream) → next_record s ≡ err truncated → find_record n s ≡ err truncated
unfolding find_record
find_short zero s h = rw h refl
find_short (suc n) s h = rw h refl

too_short :
    (n : ℕ) (s : Stream) (ciphertext : List ℕ)
    → next_record s ≡ err truncated
    → find_record n s ≡ ok ciphertext
    → ⊥
too_short n s ciphertext h e = err_not_ok (sym (find_short n s h) ∙ e)

find_record-more :
    (n position : ℕ) (rest more ciphertext : List ℕ)
    → find_record n (record { position = position; rest = rest }) ≡ ok ciphertext
    → find_record n (record { position = position; rest = rest ++ more }) ≡ ok ciphertext
unfolding find_record next_record read_length length_at record_body
find_record-more n position [] more ciphertext e =
    absurd (too_short n (record { position = position; rest = [] }) ciphertext refl e)
find_record-more n position (a ∷ []) more ciphertext e =
    absurd (too_short n (record { position = position; rest = a ∷ [] }) ciphertext refl e)
find_record-more n position (a ∷ b ∷ []) more ciphertext e =
    absurd (too_short n (record { position = position; rest = a ∷ b ∷ [] }) ciphertext refl e)
find_record-more n position (a ∷ b ∷ c ∷ []) more ciphertext e =
    absurd (too_short n (record { position = position; rest = a ∷ b ∷ c ∷ [] }) ciphertext refl e)
find_record-more zero position (a ∷ b ∷ c ∷ d ∷ rest) more ciphertext e =
    let v = a * 2 ^ 24 + b * 2 ^ 16 + c * 2 ^ 8 + d in
    let (x, body, e1) =
      >>=-ok (record_body v (record { position = position + 4; rest = rest })) _ e in
    let (some_bytes, bounded, enough, same_record) = record_body-ok v (position + 4) rest x body in
    rw
      (
        next_record-cons position a b c d (rest ++ more),
        record_body-more v (position + 4) rest more some_bytes bounded enough,
      )
      (ap (λ (y : ℕ × List ℕ × Stream). ok y.1) same_record ∙ e1)
find_record-more (suc n) position (a ∷ b ∷ c ∷ d ∷ rest) more ciphertext e =
    let v = a * 2 ^ 24 + b * 2 ^ 16 + c * 2 ^ 8 + d in
    let (x, body, e1) =
      >>=-ok (record_body v (record { position = position + 4; rest = rest })) _ e in
    let (some_bytes, bounded, enough, same_record) = record_body-ok v (position + 4) rest x body in
    rw
      (
        next_record-cons position a b c d (rest ++ more),
        record_body-more v (position + 4) rest more some_bytes bounded enough,
      )
      (find_record-more n (position + 4 + (v + tag_bytes)) (drop (v + tag_bytes) rest) more
        ciphertext (ap (λ (y : ℕ × List ℕ × Stream). find_record n y.2) same_record ∙ e1))

still_aligned : (a b : Bool) (room : ℕ) → (a || b) ≡ false → 1 ≤ room → (a || (room == 0)) ≡ false
still_aligned true b room e h = e
still_aligned false b room e h = ground arith

module _ (sodium : Sodium) (master_key : List ℕ) where
  read_record-more :
      (id : String) (bytes more : List ℕ) (n maximum room : ℕ) (p : List ℕ)
      → read_record sodium master_key id bytes n maximum ≡ ok p
      → length p ≤ room
      → read_record sodium master_key id (bytes ++ more) n room ≡ ok p
  unfolding read_record
  read_record-more id bytes more n maximum room p e fits =
      let (x, opened, e1) = >>=-ok (open_header bytes) _ e in
      let (ciphertext, found, e2) = >>=-ok (find_record n x.1) _ e1 in
      let (plaintext, decrypted, e3) =
        >>=-ok
          (or_raise
            (sodium.decrypt ciphertext (nonce_for x.0 n) (transfer_key sodium master_key id))
            authentication_failed)
          _ e2 in
      let same_plaintext =
        ok-injective (raise_if-ok (ltb maximum (length plaintext)) buffer_too_small _ e3).1 in
      rw
        (
          (open_header-more bytes more x opened).0,
          find_record-more n x.1.position x.1.rest more ciphertext found,
          or_raise-ok _ authentication_failed decrypted,
          same_plaintext,
        )
        (rw (not_longer p room fits) refl)

  -- With the lock, and room for what was read.
  pub read-Keeps :
      (locked : Bool) (s t : Store) (id : String) (offset maximum room : ℕ) (p : List ℕ)
      → read sodium master_key locked s id offset maximum ≡ ok p
      → Keeps s t
      → length p ≤ room
      → 1 ≤ room
      → read sodium master_key true t id offset room ≡ ok p
  unfolding read take_lock
  read-Keeps locked s t id offset maximum room p e keeps fits positive =
      let (aligned, e1) =
        raise_if-ok (not (offset % plain_chunk_bytes == 0) || (maximum == 0)) invalid_offset _ e in
      let (path, named, e2) = >>=-ok (path_for id) _ e1 in
      let (lock, e3) = raise_if-ok (not locked || not (contains s.locks path)) cannot_lock _ e2 in
      let (bytes, known, e4) = >>=-ok (or_raise (lookup path s.files) invalid_header) _ e3 in
      let (more, grown) =
        keeps.grows path bytes (or_raise-ok (lookup path s.files) invalid_header known) in
      let lock_stays = keeps.locks_stay path (
        not-false (contains s.locks path)
          (right_false (not locked) (not (contains s.locks path)) lock)) in
      rw
        (
          still_aligned (not (offset % plain_chunk_bytes == 0)) (maximum == 0) room aligned
              positive,
          named,
          lock_stays,
          grown,
        )
        (read_record-more id bytes more (offset / plain_chunk_bytes) maximum room p e4 fits)
