-- ===== src/Messages/Table/Acknowledge.antt =====
-- GetPendingTextMessages and AcknowledgeTextMessages: what stays pending after an acknowledgement.
use distributed_chat_system.Prelude.{
  ℕ, zero, suc, ◌+◌, ◌≤◌, ℤ, String, Bool, true, false, not, ◌&&◌, ◌||◌, ◌≡◌, ◌≢◌, inl, inr, refl,
  ap, ◌∙◌, some, List, [], ◌∷◌, if◌then◌else◌, map, keep_if, contains, string_eq, pair_eq, arith,
  Distinct, int_eq, int_eq_iff, Option-cases, length, take, length-take-le,
}
use distributed_chat_system.Messages.Types.{TextMessage, Key, key, Collation}
use distributed_chat_system.Messages.Table.{
  Row, row_key, Faults, is_pending, pending_rows, get_pending, coalesce, acknowledge_row,
  acknowledge_loop, commit_result, finish, acknowledge,
}
use distributed_chat_system.Messages.Table.Keys.{row_keys}

module _ (like : Collation) where
  -- Whether an id is one of these, in the collation.
  abbrev pub is_listed : List String → String → Bool
  is_listed [] id = false
  is_listed (named ∷ ids) id = like id named || is_listed ids id

  -- One of these ids of this sender, for this receiver.
  abbrev pub is_named : ℤ → ℤ → List String → TextMessage → Bool
  is_named receiver sender ids m =
      int_eq m.receiver_uid receiver
      && int_eq m.sender_uid sender
      && is_listed ids m.client_message_id

  -- What the whole batch of updates does to one row.
  abbrev pub acknowledge_all : ℕ → ℤ → ℤ → List String → Row → Row
  acknowledge_all now receiver sender ids r =
      if is_named receiver sender ids r.message
      then record r { acknowledged_at = coalesce r.acknowledged_at now }
      else r

  acknowledge_all-nil :
      (now : ℕ) (receiver sender : ℤ) (r : Row) → acknowledge_all now receiver sender [] r ≡ r
  acknowledge_all-nil now receiver sender r = ground arith

  acknowledge_all-cons :
      (now : ℕ) (receiver sender : ℤ) (id : String) (ids : List String) (r : Row)
      → acknowledge_all now receiver sender ids (acknowledge_row like now receiver sender id r)
        ≡ acknowledge_all now receiver sender (id ∷ ids) r
  unfolding acknowledge_row
  acknowledge_all-cons now receiver sender id ids r = ground arith

  map-map-acknowledge :
      (now : ℕ) (receiver sender : ℤ) (id : String) (ids : List String) (rows : List Row)
      → map
          (acknowledge_all now receiver sender ids)
          (map (acknowledge_row like now receiver sender id) rows)
        ≡ map (acknowledge_all now receiver sender (id ∷ ids)) rows
  map-map-acknowledge now receiver sender id ids [] = refl
  map-map-acknowledge now receiver sender id ids (r ∷ rows) = cc (
    acknowledge_all-cons now receiver sender id ids r,
    map-map-acknowledge now receiver sender id ids rows,
  )

  map-acknowledge-nil :
      (now : ℕ) (receiver sender : ℤ) (rows : List Row)
      → map (acknowledge_all now receiver sender []) rows ≡ rows
  map-acknowledge-nil now receiver sender [] = refl
  map-acknowledge-nil now receiver sender (r ∷ rows) =
      cc (acknowledge_all-nil now receiver sender r, map-acknowledge-nil now receiver sender rows)

  acknowledge_loop_lem :
      (f : Faults) (i now : ℕ) (receiver sender : ℤ) (rows : List Row) (ids : List String)
      {new : List Row}
      → acknowledge_loop like f i now receiver sender rows ids ≡ some new
      → new ≡ map (acknowledge_all now receiver sender ids) rows
  unfolding acknowledge_loop
  acknowledge_loop_lem f i now receiver sender rows [] h =
      ground (arith, map-acknowledge-nil now receiver sender rows)
  acknowledge_loop_lem f i now receiver sender rows (id ∷ ids) h =
      acknowledge_loop_lem f (i + 1) now receiver sender
        (map (acknowledge_row like now receiver sender id) rows) ids (ground arith)
      ∙ map-map-acknowledge now receiver sender id ids rows

  -- The messages that a receiver still waits for, less those that are named.
  abbrev pub unnamed : ℤ → ℤ → List String → List TextMessage → List TextMessage
  unnamed receiver sender ids ms = keep_if (λ m. not (is_named receiver sender ids m)) ms

  pending_rows-map :
      (now : ℕ) (receiver sender other : ℤ) (ids : List String) (rows : List Row)
      → pending_rows other (map (acknowledge_all now receiver sender ids) rows)
        ≡ unnamed receiver sender ids (pending_rows other rows)
  unfolding keep_if is_pending
  pending_rows-map now receiver sender other ids [] = refl
  pending_rows-map now receiver sender other ids (r ∷ rows) =
      ground (arith, pending_rows-map now receiver sender other ids rows)

  acknowledge-rows :
      (f : Faults) (now : ℕ) (rows : List Row) (receiver sender : ℤ) (ids : List String)
      → (acknowledge like f now rows receiver sender ids).0 ≡ true
      → (acknowledge like f now rows receiver sender ids).1
        ≡ map (acknowledge_all now receiver sender ids) rows
  unfolding acknowledge finish commit_result
  acknowledge-rows f now rows receiver sender ids h =
      elim (Option-cases (acknowledge_loop like f 0 now receiver sender rows ids)) [
        | inl e ↦ absurd (ground arith)
        | inr (new, e) ↦ ground (arith, acknowledge_loop_lem f 0 now receiver sender rows ids e)
      ]

  -- After an acknowledgement that was reported as done, each user's pending messages are those of
  -- before, in the same order, less those of this sender for this receiver whose
  -- id is, in the collation, one that was named.
  pub pending-acknowledge :
      (f : Faults) (now : ℕ) (rows : List Row) (receiver sender other : ℤ) (ids : List String)
      → (acknowledge like f now rows receiver sender ids).0 ≡ true
      → pending_rows other (acknowledge like f now rows receiver sender ids).1
        ≡ unnamed receiver sender ids (pending_rows other rows)
  pending-acknowledge f now rows receiver sender other ids h =
      rw (acknowledge-rows f now rows receiver sender ids h)
        (pending_rows-map now receiver sender other ids rows)

  unnamed_other :
      (receiver sender other : ℤ) (ids : List String) (rows : List Row)
      → receiver ≢ other
      → unnamed receiver sender ids (pending_rows other rows) ≡ pending_rows other rows
  unfolding keep_if is_pending
  unnamed_other receiver sender other ids [] n = refl
  unnamed_other receiver sender other ids (r ∷ rows) n = ground (
    arith,
    unnamed_other receiver sender other ids rows n,
    int_eq_iff r.message.receiver_uid receiver,
    int_eq_iff r.message.receiver_uid other,
  )

  -- Nobody but the receiver can acknowledge: the pending messages of every other user stay the same,
  -- whether the transaction is reported as done or not.
  pub acknowledge_other :
      (f : Faults) (now : ℕ) (rows : List Row) (receiver sender other : ℤ) (ids : List String)
      → receiver ≢ other
      → pending_rows other (acknowledge like f now rows receiver sender ids).1
        ≡ pending_rows other rows
  unfolding acknowledge finish commit_result
  acknowledge_other f now rows receiver sender other ids n =
      elim (Option-cases (acknowledge_loop like f 0 now receiver sender rows ids)) [
        | inl e ↦ ground arith
        | inr (new, e) ↦ ground (
          arith,
          ap (pending_rows other) (acknowledge_loop_lem f 0 now receiver sender rows ids e),
          pending_rows-map now receiver sender other ids rows,
          unnamed_other receiver sender other ids rows n,
        )
      ]

contains-take :
    (n : ℕ) (k : Key) (ms : List TextMessage)
    → contains (map key ms) k ≡ false
    → contains (map key (take n ms)) k ≡ false
unfolding contains
contains-take zero k ms h = refl
contains-take (suc n) k [] h = refl
contains-take (suc n) k (m ∷ ms) h = ground (arith, contains-take n k ms)

Distinct-take :
    (n : ℕ) (ms : List TextMessage) → Distinct (map key ms) → Distinct (map key (take n ms))
Distinct-take zero ms d = tt
Distinct-take (suc n) [] d = tt
Distinct-take (suc n) (m ∷ ms) d = (contains-take n (key m) ms d.0, Distinct-take n ms d.1)

contains-pending_rows :
    (u : ℤ) (k : Key) (rows : List Row)
    → contains (row_keys rows) k ≡ false
    → contains (map key (pending_rows u rows)) k ≡ false
unfolding contains keep_if
contains-pending_rows u k [] h = refl
contains-pending_rows u k (r ∷ rows) h = ground (arith, contains-pending_rows u k rows)

pending_rows-Distinct :
    (u : ℤ) (rows : List Row) → Distinct (row_keys rows) → Distinct (map key (pending_rows u rows))
unfolding keep_if
pending_rows-Distinct u [] d = tt
pending_rows-Distinct u (r ∷ rows) d =
    ground (arith, pending_rows-Distinct u rows d.1, contains-pending_rows u (row_key r) rows d.0)

-- When no two rows share a key, a query that succeeds returns at most `limit` messages and no key
-- twice.
pub get_pending_bounds :
    (f : Faults) (rows : List Row) (receiver : ℤ) (limit : ℕ) {ms : List TextMessage}
    → Distinct (row_keys rows)
    → get_pending f rows receiver limit ≡ some ms
    → (length ms ≤ limit) × Distinct (map key ms)
unfolding get_pending
get_pending_bounds f rows receiver limit {ms} d h =
    let e : take limit (pending_rows receiver rows) ≡ ms = ground arith in
    rw (← e) (
      length-take-le limit (pending_rows receiver rows),
      Distinct-take limit _ (pending_rows-Distinct receiver rows d),
    )
