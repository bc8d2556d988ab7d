-- ===== src/Resource/Rights.antt =====
-- Who may do what with a file.
use distributed_chat_system.Prelude.{
  ℕ, ◌+◌, ◌*◌, ◌%◌, ◌==◌, leb, length, ◌≤◌, ℤ, Bool, true, false, not, ◌||◌, ◌&&◌, ◌≡◌, ◌≢◌, refl,
  sym, subst, ap, ◌∙◌, inl, inr, String, Option, none, some, List, int_eq, int_eq_iff, arith,
  Result-cases, Result, ok, is_ok, ◌>>=◌, raise_if, raise_if-ok, >>=-ok, ok-injective,
}
use distributed_chat_system.Files.Types.{Transfer, is_available}
use distributed_chat_system.Resource.{
  Problem, error, internal, valid_id, file, is_expired, is_cancelled,
}
use distributed_chat_system.Resource.Range.{part_of, part_of_bounds}
use distributed_chat_system.Files.Store.{Sodium, Store, plain_chunk_bytes}
use distributed_chat_system.Resource.Chunk.{ChunkIo, check_chunk, chunk}
use distributed_chat_system.Resource.Publish.{Tables, PublishIo, check_complete, complete}
use distributed_chat_system.Resource.Access.{
  Group, is_uploads, Call, content, Answer, stream, AccessIo, check_access, check_receiver,
  stream_of, respond, handle,
}

-- What the tests that all requests pass say.
record IsAdmitted (io : AccessIo) (uid : ℤ) (rows : List Transfer) (id : String) (f : Transfer)
    : Type 0 where
  found : file rows id ≡ ok f
  party : (int_eq f.file.sender_uid uid || int_eq f.file.receiver_uid uid) ≡ true
  live : is_expired io.now f ≡ false

not-true : (b : Bool) → not b ≡ false → b ≡ true
not-true true e = refl
not-true false e = ground arith

check_access-ok :
    (io : AccessIo) (uid : ℤ) (rows : List Transfer) (group : Group) (id : String) (f : Transfer)
    → check_access io uid rows group id ≡ ok f
    → IsAdmitted io uid rows id f
unfolding check_access
check_access-ok io uid rows group id f e =
    let (locked, e1) =
      raise_if-ok (not (valid_id id) || not io.locked || not io.leased) internal _ e in
    let (g, found, e2) = >>=-ok (file rows id) _ e1 in
    let (party, e3) =
      raise_if-ok (not (int_eq g.file.sender_uid uid || int_eq g.file.receiver_uid uid)) (error 403)
        _ e2 in
    let (owner, e4) =
      raise_if-ok (not (not (is_uploads group) || int_eq g.file.sender_uid uid)) (error 403) _ e3 in
    let (live, e5) =
      raise_if-ok (not (not (is_expired io.now g) && not (is_cancelled g.file.status))) (error 410)
        _ e4 in
    subst (IsAdmitted io uid rows id) (ok-injective e5)
      (record { found = found; party = not-true _ party; live = ground (arith, live) })

when_ok : (b : Bool) (x : Problem) (u : Unit {0}) → raise_if (not b) x ≡ ok u → b ≡ true
when_ok true x u e = refl
when_ok false x u e = cc

stream-injective : {a b c d : ℕ} → stream a b ≡ stream c d → (a ≡ c) × (b ≡ d)
stream-injective e = ground arith

stranger :
    (f : Transfer) (uid : ℤ)
    → f.file.sender_uid ≢ uid
    → f.file.receiver_uid ≢ uid
    → (int_eq f.file.sender_uid uid || int_eq f.file.receiver_uid uid) ≡ true
    → ⊥
stranger f uid sender receiver e =
    ground (arith, int_eq_iff f.file.sender_uid uid, int_eq_iff f.file.receiver_uid uid)

access_stranger :
    (io : AccessIo) (uid : ℤ) (rows : List Transfer) (group : Group) (id : String) (call : Call)
    (f : Transfer)
    → file rows id ≡ ok f
    → f.file.sender_uid ≢ uid
    → f.file.receiver_uid ≢ uid
    → (is_ok (handle io uid rows group id call).0 ≡ false)
      × ((handle io uid rows group id call).1 ≡ rows)
unfolding handle
access_stranger io uid rows group id call f found sender receiver =
    elim (Result-cases (check_access io uid rows group id)) [
      | inl (x, h) ↦ rw (h, handle) (refl, refl)
      | inr (g, h) ↦
          let a = check_access-ok io uid rows group id g h in
          let same_file = ok-injective (sym a.found ∙ found) in
          absurd (
            stranger f uid sender receiver (
              subst
                (λ (k : Transfer).
                  (int_eq k.file.sender_uid uid || int_eq k.file.receiver_uid uid) ≡ true)
                same_file a.party))
    ]

-- The sender's requests, by anyone else.
check_chunk_stranger :
    (io : ChunkIo) (uid : ℤ) (id : String) (offset : ℕ) (bytes : List ℕ) (rows : List Transfer)
    (f g : Transfer)
    → file rows id ≡ ok f
    → f.file.sender_uid ≢ uid
    → check_chunk io uid id offset bytes rows ≡ ok g
    → ⊥
unfolding check_chunk
check_chunk_stranger io uid id offset bytes rows f g found sender e =
    let (sized, e1) =
      raise_if-ok
        (not (
          not (length bytes == 0)
          && leb (length bytes) (256 * 1024)
          && (offset % plain_chunk_bytes == 0)))
        (error 400) _ e in
    let (locked, e2) =
      raise_if-ok (not (valid_id id) || not io.locked || not io.leased) internal _ e1 in
    let (h, read, e3) = >>=-ok (file rows id) _ e2 in
    let (owner, e4) = raise_if-ok (not (int_eq h.file.sender_uid uid)) (error 403) _ e3 in
    let same_file : h ≡ f = ok-injective (sym read ∙ found) in
    ground (
      arith,
      owner,
      ap (λ (k : Transfer). k.file.sender_uid) same_file,
      int_eq_iff h.file.sender_uid uid,
      sender,
    )

module _ (sodium : Sodium) (master_key : List ℕ) where
  chunk_stranger :
      (io : ChunkIo) (uid : ℤ) (id : String) (offset : ℕ) (bytes : List ℕ) (store : Store)
      (rows : List Transfer) (f : Transfer)
      → file rows id ≡ ok f
      → f.file.sender_uid ≢ uid
      → (is_ok (chunk sodium master_key io uid id offset bytes (store, rows)).0 ≡ false)
        × ((chunk sodium master_key io uid id offset bytes (store, rows)).1 ≡ (store, rows))
  unfolding chunk
  chunk_stranger io uid id offset bytes store rows f found sender =
      elim (Result-cases (check_chunk io uid id offset bytes rows)) [
        | inl (x, h) ↦ rw (h, chunk) (refl, refl)
        | inr (g, h) ↦ absurd (check_chunk_stranger io uid id offset bytes rows f g found sender h)
      ]

  module _ {State : Type 0} (update : State → List ℕ → State) (init : State)
      (final_hex : State → String) where
    check_complete_stranger :
        (io : PublishIo) (uid : ℤ) (store : Store) (rows : List Transfer) (id : String)
        (f : Transfer) (g : Bool × Transfer)
        → file rows id ≡ ok f
        → f.file.sender_uid ≢ uid
        → check_complete sodium master_key update init final_hex io uid store rows id ≡ ok g
        → ⊥
    unfolding check_complete
    check_complete_stranger io uid store rows id f g found sender e =
        let (locked, e1) =
          raise_if-ok (not (valid_id id) || not io.locked || not io.leased) internal _ e in
        let (h, read, e2) = >>=-ok (file rows id) _ e1 in
        let (owner, e3) = raise_if-ok (not (int_eq h.file.sender_uid uid)) (error 403) _ e2 in
        let same_file : h ≡ f = ok-injective (sym read ∙ found) in
        ground (
          arith,
          owner,
          ap (λ (k : Transfer). k.file.sender_uid) same_file,
          int_eq_iff h.file.sender_uid uid,
          sender,
        )

    complete_stranger :
        (io : PublishIo) (uid : ℤ) (store : Store) (t : Tables) (id : String) (f : Transfer)
        → file t.rows id ≡ ok f
        → f.file.sender_uid ≢ uid
        → (is_ok (complete sodium master_key update init final_hex io uid store t id).0 ≡ false)
          × ((complete sodium master_key update init final_hex io uid store t id).1 ≡ t)
    unfolding complete
    complete_stranger io uid store t id f found sender =
        elim (Result-cases
          (check_complete sodium master_key update init final_hex io uid store t.rows id)) [
            | inl (x, h) ↦ rw (h, complete) (refl, refl)
            | inr (g, h) ↦
                absurd (check_complete_stranger io uid store t.rows id f g found sender h)
          ]

    -- A request for a file by someone who is neither its sender nor its receiver is refused and
    -- changes neither the tables nor the store: a piece for its upload, the completion of its
    -- upload, and every request that Service::handle serves itself, in either group.
    pub handle_stranger :
        (io : AccessIo) (chunk_io : ChunkIo) (publish_io : PublishIo) (uid : ℤ) (store : Store)
        (t : Tables) (group : Group) (id : String) (call : Call) (offset : ℕ) (bytes : List ℕ)
        (f : Transfer)
        → file t.rows id ≡ ok f
        → f.file.sender_uid ≢ uid
        → f.file.receiver_uid ≢ uid
        → ((is_ok (handle io uid t.rows group id call).0 ≡ false)
            × ((handle io uid t.rows group id call).1 ≡ t.rows))
          × ((is_ok (chunk sodium master_key chunk_io uid id offset bytes (store, t.rows)).0
                ≡ false)
              × ((chunk sodium master_key chunk_io uid id offset bytes (store, t.rows)).1
                  ≡ (store, t.rows)))
          × ((is_ok (complete sodium master_key update init final_hex publish_io uid store t id).0
                ≡ false)
              × ((complete sodium master_key update init final_hex publish_io uid store t id).1
                  ≡ t))
    handle_stranger io chunk_io publish_io uid store t group id call offset bytes f found sender
          receiver =
        (
          access_stranger io uid t.rows group id call f found sender receiver,
          chunk_stranger chunk_io uid id offset bytes store t.rows f found sender,
          complete_stranger publish_io uid store t id f found sender,
        )

respond_content :
    (io : AccessIo) (uid : ℤ) (rows : List Transfer) (group : Group) (id : String) (f : Transfer)
    (range : Option (List ℕ))
    → respond io uid rows group id f (content range)
      ≡ (check_receiver uid group f >>= (λ u. stream_of f range), rows)
unfolding respond
respond_content io uid rows group id f range = elim (Result-cases (check_receiver uid group f)) [
  | inl (x, h) ↦ rw (h, respond) refl
  | inr (u, h) ↦ rw (h, respond) refl
]

-- Both tests, then the range.
handle_content :
    (io : AccessIo) (uid : ℤ) (rows : List Transfer) (group : Group) (id : String)
    (range : Option (List ℕ))
    → handle io uid rows group id (content range) ≡ (
      check_access io uid rows group id
          >>= (λ f. check_receiver uid group f >>= (λ u. stream_of f range)),
      rows,
    )
unfolding handle
handle_content io uid rows group id range =
    elim (Result-cases (check_access io uid rows group id)) [
      | inl (x, h) ↦ rw (h, handle) refl
      | inr (f, h) ↦ rw (h, handle) (respond_content io uid rows group id f range)
    ]

check_receiver-ok :
    (uid : ℤ) (group : Group) (f : Transfer) (u : Unit {0})
    → check_receiver uid group f ≡ ok u
    → (f.file.receiver_uid ≡ uid) × (is_available f.file.status ≡ true)
unfolding check_receiver
check_receiver-ok uid group f u e =
    let (receiver, e1) =
      raise_if-ok (not (not (is_uploads group) && int_eq f.file.receiver_uid uid)) (error 403) _
        e in
    let ready = when_ok (is_available f.file.status) (error 409) u e1 in
    (ground (arith, receiver, int_eq_iff f.file.receiver_uid uid), ready)

stream_of_bounds :
    (f : Transfer) (range : Option (List ℕ)) (begin count : ℕ)
    → stream_of f range ≡ ok (stream begin count)
    → begin + count ≤ f.file.total_size
unfolding stream_of
stream_of_bounds f none begin count e =
    let ends = stream-injective (ok-injective e) in omega (arith, ends.0, ends.1)
stream_of_bounds f (some range) begin count e =
    let (p, parsed, e1) = >>=-ok (part_of f.file.total_size range) _ e in
    let ends = stream-injective (ok-injective e1) in
    omega (arith, ends.0, ends.1, (part_of_bounds f.file.total_size range p parsed).1)

-- When Service::handle answers a request for the content of a file with a stream: the id is that of
-- a file whose receiver is the caller, which is published and has not expired; the stream lies in
-- the file; and the table is as it was.
pub handle-stream :
    (io : AccessIo) (uid : ℤ) (rows rows' : List Transfer) (group : Group) (id : String)
    (range : Option (List ℕ)) (begin count : ℕ)
    → handle io uid rows group id (content range) ≡ (ok (stream begin count), rows')
    → (f : Transfer) × (file rows id ≡ ok f)
      × (f.file.receiver_uid ≡ uid)
      × (is_available f.file.status ≡ true)
      × (is_expired io.now f ≡ false)
      × (begin + count ≤ f.file.total_size)
      × (rows' ≡ rows)
handle-stream io uid rows rows' group id range begin count e =
    let whole = sym (handle_content io uid rows group id range) ∙ e in
    let streamed = ap (λ (x : Result Problem Answer × List Transfer). x.0) whole in
    let (f, checked, e1) = >>=-ok (check_access io uid rows group id) _ streamed in
    let (u, received, e2) = >>=-ok (check_receiver uid group f) _ e1 in
    let (receiver, ready) = check_receiver-ok uid group f u received in
    let a = check_access-ok io uid rows group id f checked in
    (
      f,
      a.found,
      receiver,
      ready,
      a.live,
      stream_of_bounds f range begin count e2,
      ap (λ (x : Result Problem Answer × List Transfer). x.1) (sym whole),
    )
