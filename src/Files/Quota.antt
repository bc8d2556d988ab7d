-- ===== src/Files/Quota.antt =====
-- CreateFileTransfer: what it may leave in the table, and the quota of a sender.
use distributed_chat_system.Prelude.{
  ℕ, ◌+◌, ◌%◌, ◌^◌, ◌≤◌, ◌<◌, ◌≡◌, ◌⊎◌, inl, inr, refl, sym, subst, ℤ, Bool, not, ◌||◌, true, false,
  some, none, List, [], ◌∷◌, ◌++◌, arith, Bool-cases, leb, ltb, int_eq, int_eq_iff,
}
use distributed_chat_system.Messages.Table.{
  Faults, CommitOutcome, committed, commit_refused, commit_reply_lost, commit_result, finish,
}
use distributed_chat_system.Files.Types.{TransferRecord, Transfer, max_file_bytes}
use distributed_chat_system.Files.Table.{
  counts_for, item_count, total_bytes, has_id, new_row, create_loop, create_file_transfer,
  max_items, max_total_bytes,
}

-- The transaction's tests on the quota.
pub record HasRoom (now : ℕ) (rows : List Transfer) (t : TransferRecord) : Type 0 where
  pub items : item_count now t.sender_uid rows < max_items
  pub bytes : (total_bytes now t.sender_uid rows + t.total_size) % 2 ^ 64 ≤ max_total_bytes

not_leb : (a : Bool) (m n : ℕ) (b : Bool) → (a || leb m n || b) ≡ false → n < m
not_leb true m n b e = ground arith
not_leb false m n b e = ground arith

not_ltb : (a b : Bool) (m n : ℕ) → (a || b || ltb m n) ≡ false → n ≤ m
not_ltb true b m n e = ground arith
not_ltb false true m n e = ground arith
not_ltb false false m n e = ground arith

create_loop-cases :
    (is_user : ℤ → Bool) (f : Faults) (now : ℕ) (rows : List Transfer) (t : TransferRecord)
    → (create_loop is_user f now rows t ≡ none)
      ⊎ ((create_loop is_user f now rows t ≡ some (rows ++ new_row now t ∷ []))
          × HasRoom now rows t)
unfolding create_loop
create_loop-cases is_user f now rows t =
    elim (Bool-cases (f.throws 0 || not (is_user t.sender_uid))) [
      | inl e ↦ inl (rw e refl)
      | inr e ↦
          rw e
            (elim (Bool-cases (
              f.throws 1
              || leb max_items (item_count now t.sender_uid rows)
              || ltb max_total_bytes
                  ((total_bytes now t.sender_uid rows + t.total_size) % 2 ^ 64))) [
                    | inl e' ↦ inl (rw e' refl)
                    | inr e' ↦
                        rw e'
                          (elim (Bool-cases
                            (f.throws 2 || has_id t.id rows || not (is_user t.receiver_uid))) [
                              | inl e'' ↦ inl (rw e'' refl)
                              | inr e'' ↦ inr (
                                  rw e'' (
                                    refl,
                                    record {
                                      items =
                                          not_leb (f.throws 1) max_items
                                            (item_count now t.sender_uid rows) _ e';
                                      bytes =
                                          not_ltb (f.throws 1)
                                            (leb max_items (item_count now t.sender_uid rows))
                                            max_total_bytes _ e';
                                    },
                                  ))
                            ])
                  ])
    ]

commit_outcome :
    (c : CommitOutcome) (old new : List Transfer)
    → ((commit_result c old new).1 ≡ old) ⊎ ((commit_result c old new).1 ≡ new)
unfolding commit_result
commit_outcome committed old new = inr refl
commit_outcome commit_refused old new = inl refl
commit_outcome commit_reply_lost old new = inr refl

-- The table that CreateFileTransfer leaves is the old one, or the old one with the new row, for
-- which there was room.
pub create_file_transfer_table :
    (is_user : ℤ → Bool) (f : Faults) (now : ℕ) (rows : List Transfer) (t : TransferRecord)
    → ((create_file_transfer is_user f now rows t).1 ≡ rows)
      ⊎ (((create_file_transfer is_user f now rows t).1 ≡ rows ++ new_row now t ∷ [])
          × HasRoom now rows t)
unfolding create_file_transfer
create_file_transfer_table is_user f now rows t =
    elim (Bool-cases (not f.connected || f.setup_throws)) [
      | inl e ↦ inl (rw e refl)
      | inr e ↦ rw e (elim (create_loop-cases is_user f now rows t) [
        | inl h ↦ inl (rw (h, finish) refl)
        | inr (h, room) ↦
            rw (h, finish)
              (elim (commit_outcome f.commit rows (rows ++ new_row now t ∷ [])) [
                | inl k ↦ inl k
                | inr k ↦ inr (k, room)
              ])
      ])
    ]

item_count-append :
    (now : ℕ) (sender : ℤ) (rows : List Transfer) (r : Transfer)
    → item_count now sender (rows ++ r ∷ [])
      ≡ item_count now sender rows + item_count now sender (r ∷ [])
unfolding item_count
item_count-append now sender [] r = omega arith
item_count-append now sender (q ∷ qs) r = elim (Bool-cases (counts_for now sender q)) [
  | inl e ↦ rw e (omega (arith, item_count-append now sender qs r))
  | inr e ↦ rw e (item_count-append now sender qs r)
]

total_bytes-append :
    (now : ℕ) (sender : ℤ) (rows : List Transfer) (r : Transfer)
    → total_bytes now sender (rows ++ r ∷ [])
      ≡ total_bytes now sender rows + total_bytes now sender (r ∷ [])
unfolding total_bytes
total_bytes-append now sender [] r = omega arith
total_bytes-append now sender (q ∷ qs) r = elim (Bool-cases (counts_for now sender q)) [
  | inl e ↦ rw e (omega (arith, total_bytes-append now sender qs r))
  | inr e ↦ rw e (total_bytes-append now sender qs r)
]

-- The quota of a sender at a time.
pub record IsWithin (now : ℕ) (sender : ℤ) (rows : List Transfer) : Type 0 where
  pub items : item_count now sender rows ≤ max_items
  pub bytes : total_bytes now sender rows ≤ max_total_bytes

-- With a row of another sender nothing is added; with one of the sender at most its size.
row_items :
    (now : ℕ) (sender : ℤ) (t : TransferRecord) → (item_count now sender (new_row now t ∷ []) ≤ 1)
unfolding item_count
row_items now sender t = ground arith

row_bytes :
    (now : ℕ) (sender : ℤ) (t : TransferRecord)
    → (total_bytes now sender (new_row now t ∷ []) ≤ t.total_size)
unfolding total_bytes
row_bytes now sender t = ground arith

other_row :
    (now : ℕ) (sender : ℤ) (t : TransferRecord)
    → int_eq t.sender_uid sender ≡ false
    → (item_count now sender (new_row now t ∷ []) ≡ 0)
      × (total_bytes now sender (new_row now t ∷ []) ≡ 0)
unfolding item_count total_bytes
other_row now sender t e = (rw e refl, rw e refl)

-- Adding a row of another sender changes nothing for this one.
IsWithin-other :
    (now : ℕ) (sender : ℤ) (rows : List Transfer) (t : TransferRecord)
    → int_eq t.sender_uid sender ≡ false
    → IsWithin now sender rows
    → IsWithin now sender (rows ++ new_row now t ∷ [])
IsWithin-other now sender rows t e within = record {
  items = omega (
    arith,
    item_count-append now sender rows (new_row now t),
    (other_row now sender t e).0,
    within.items,
  );
  bytes = omega (
    arith,
    total_bytes-append now sender rows (new_row now t),
    (other_row now sender t e).1,
    within.bytes,
  );
}

IsWithin-same :
    (now : ℕ) (rows : List Transfer) (t : TransferRecord)
    → t.total_size ≤ max_file_bytes
    → IsWithin now t.sender_uid rows
    → HasRoom now rows t
    → IsWithin now t.sender_uid (rows ++ new_row now t ∷ [])
IsWithin-same now rows t size within room = record {
  items = omega (
    arith,
    item_count-append now t.sender_uid rows (new_row now t),
    row_items now t.sender_uid t,
    room.items,
  );
  bytes = omega (
    arith,
    total_bytes-append now t.sender_uid rows (new_row now t),
    row_bytes now t.sender_uid t,
    room.bytes,
    within.bytes,
    size,
  );
}

IsWithin-own :
    (now : ℕ) (rows : List Transfer) (t : TransferRecord) (sender : ℤ)
    → t.total_size ≤ max_file_bytes
    → t.sender_uid ≡ sender
    → IsWithin now sender rows
    → HasRoom now rows t
    → IsWithin now sender (rows ++ new_row now t ∷ [])
IsWithin-own now rows t sender size own within room =
    subst (λ s. IsWithin now s (rows ++ new_row now t ∷ [])) own
      (IsWithin-same now rows t size (subst (λ s. IsWithin now s rows) (sym own) within) room)

-- For a file of at most 100 MiB, CreateFileTransfer leaves every sender who had at most 16 live
-- transfers of together at most 1 GiB within these limits, whatever the database does and whoever
-- calls.
pub create_file_transfer-IsWithin :
    (is_user : ℤ → Bool) (f : Faults) (now : ℕ) (rows : List Transfer) (t : TransferRecord)
    (sender : ℤ)
    → t.total_size ≤ max_file_bytes
    → IsWithin now sender rows
    → IsWithin now sender (create_file_transfer is_user f now rows t).1
create_file_transfer-IsWithin is_user f now rows t sender size within =
    elim (create_file_transfer_table is_user f now rows t) [
      | inl e ↦ subst (IsWithin now sender) (sym e) within
      | inr (e, room) ↦
          subst (IsWithin now sender) (sym e) (elim (Bool-cases (int_eq t.sender_uid sender)) [
            | inr other ↦ IsWithin-other now sender rows t other within
            | inl own ↦
                IsWithin-own now rows t sender size ((int_eq_iff t.sender_uid sender).0 own) within
                  room
          ])
    ]
