-- ===== src/Messages/Table/Persist.antt =====
-- PersistTextMessages: all or nothing, what a stored batch means, and retries.
use text.Mathlib.TextEquality.{eq_iff}
use distributed_chat_system.Prelude.{
  ℕ, ◌+◌, true, false, ◌≡◌, ◌≢◌, ◌⊎◌, inl, inr, refl, some, List, [], ◌∷◌, pair_eq, arith, Distinct,
  All, String, subst, sym, ◌∙◌, int_eq_iff, Option-cases, length, ◌<◌,
}
use distributed_chat_system.Messages.Types.{TextMessage, Key, key, Collation, is_key}
use distributed_chat_system.Messages.Table.{
  Row, row_key, Faults, committed, commit_refused, find_row, insert_row, verify_row, persist_loop,
  commit_result, finish, persist,
}
use distributed_chat_system.Messages.Table.Keys.{
  row_keys, find_row_key, find_row-insert_row_kept, insert_row_present, insert_row-Distinct,
}

-- The row is this message's: its sender, receiver and content, and an id that is equal in the
-- collation.
pub record IsCopy (like : Collation) (m : TextMessage) (r : Row) : Type 0 where
  pub same_key : is_key like (row_key r) (key m) ≡ true
  pub same_receiver : r.message.receiver_uid ≡ m.receiver_uid
  pub same_content : r.message.content ≡ m.content

pub record IsFaultless (f : Faults) : Type 0 where
  pub online : f.connected ≡ true
  pub setup : f.setup_throws ≡ false
  pub silent : (i : ℕ) → f.throws i ≡ false
  pub commits : f.commit ≡ committed

module _ (like : Collation) where
  -- The table holds the message under its key.
  abbrev pub IsStored : List Row → TextMessage → Type 0
  IsStored rows m = (r : Row) × (find_row like (key m) rows ≡ some r) × IsCopy like m r

  -- Every row that was there is still found, unchanged.
  abbrev pub Extends : List Row → List Row → Type 0
  Extends old new =
      (k : Key) (r : Row) → find_row like k old ≡ some r → find_row like k new ≡ some r

  -- Every message of the batch, inserted where its key is free.
  abbrev pub insert_all : List Row → List TextMessage → List Row
  insert_all rows [] = rows
  insert_all rows (m ∷ ms) = insert_all (insert_row like m rows) ms

  verify_row-IsStored :
      (m : TextMessage) (rows : List Row) → verify_row like m rows ≡ true → IsStored rows m
  unfolding verify_row
  verify_row-IsStored m rows h = elim (Option-cases (find_row like (key m) rows)) [
    | inl e ↦ absurd (ground arith)
    | inr (r, e) ↦ (
      r,
      e,
      record {
        same_key = find_row_key like (key m) rows r e;
        same_receiver = ground (arith, int_eq_iff r.message.receiver_uid m.receiver_uid);
        same_content = ground (arith, eq_iff r.message.content m.content);
      },
    )
  ]

  verify_row_stored :
      (m : TextMessage) (rows : List Row) → IsStored rows m → verify_row like m rows ≡ true
  unfolding verify_row
  verify_row_stored m rows (r, e, c) =
      rw (e, verify_row)
        (ground (
          arith,
          int_eq_iff r.message.receiver_uid m.receiver_uid,
          eq_iff r.message.content m.content,
          c.same_receiver,
          c.same_content,
        ))

  Extends-insert_all : (rows : List Row) (ms : List TextMessage) → Extends rows (insert_all rows ms)
  Extends-insert_all rows [] k r h = h
  Extends-insert_all rows (m ∷ ms) k r h =
      Extends-insert_all (insert_row like m rows) ms k r
        (find_row-insert_row_kept like k m rows r h)

  insert_all-Distinct :
      (rows : List Row) (ms : List TextMessage)
      → ((id : String) → like id id ≡ true)
      → Distinct (row_keys rows)
      → Distinct (row_keys (insert_all rows ms))
  insert_all-Distinct rows [] reflexive d = d
  insert_all-Distinct rows (m ∷ ms) reflexive d =
      insert_all-Distinct (insert_row like m rows) ms reflexive
        (insert_row-Distinct like reflexive m rows d)

  persist_loop_step :
      (f : Faults) (i : ℕ) (rows : List Row) (m : TextMessage) (ms : List TextMessage)
      {new : List Row}
      → persist_loop like f i rows (m ∷ ms) ≡ some new
      → (verify_row like m (insert_row like m rows) ≡ true)
        × (persist_loop like f (i + 2) (insert_row like m rows) ms ≡ some new)
  unfolding persist_loop
  persist_loop_step f i rows m ms h = ground arith

  IsStored-Extends :
      (m : TextMessage) (old new : List Row) → Extends old new → IsStored old m → IsStored new m
  IsStored-Extends m old new ext (r, e, c) = (r, ext (key m) r e, c)

  -- The loop inserts the whole batch and has verified each message in the final table, or gives up.
  persist_loop_lem :
      (f : Faults) (i : ℕ) (rows : List Row) (ms : List TextMessage) {new : List Row}
      → persist_loop like f i rows ms ≡ some new
      → (new ≡ insert_all rows ms) × All (IsStored new) ms
  unfolding persist_loop
  persist_loop_lem f i rows [] h = (ground arith, tt)
  persist_loop_lem f i rows (m ∷ ms) {new} h =
      let s = persist_loop_step f i rows m ms h in
      let (e, rest) = persist_loop_lem f (i + 2) (insert_row like m rows) ms s.1 in
      (
        e,
        (
          IsStored-Extends m (insert_row like m rows) new
              (rw e (Extends-insert_all (insert_row like m rows) ms))
              (verify_row-IsStored m (insert_row like m rows) s.0),
          rest,
        ),
      )

  persist-loop :
      (f : Faults) (rows : List Row) (ms : List TextMessage)
      → (persist like f rows ms).0 ≡ true
      → persist_loop like f 0 rows ms ≡ some (persist like f rows ms).1
  unfolding persist finish commit_result
  persist-loop f rows [] h = ground arith
  persist-loop f rows (m ∷ ms) h = ground arith

  -- A batch that is reported as persisted is in the table: for each message the row that its
  -- key finds, in the collation of the ids, has its sender, receiver and content. All rows that were there before are found unchanged.
  pub persist-IsStored :
      (f : Faults) (rows : List Row) (ms : List TextMessage)
      → (persist like f rows ms).0 ≡ true
      → All (IsStored (persist like f rows ms).1) ms × Extends rows (persist like f rows ms).1
  persist-IsStored f rows ms h =
      let (e, stored) = persist_loop_lem f 0 rows ms (persist-loop f rows ms h) in
      (stored, rw e (Extends-insert_all rows ms))

  persist_table :
      (f : Faults) (rows : List Row) (m : TextMessage) (ms : List TextMessage) (new : List Row)
      → persist_loop like f 0 rows (m ∷ ms) ≡ some new
      → ((persist like f rows (m ∷ ms)).1 ≡ rows)
        ⊎ (((persist like f rows (m ∷ ms)).1 ≡ new) × (f.commit ≢ commit_refused))
  unfolding persist finish commit_result
  persist_table f rows m ms new e = ground (arith, e)

  -- Whatever fails, the table after PersistTextMessages is as before, or every message of the batch is
  -- stored in it under its key, in the collation of the ids, all rows of before are found unchanged, nothing but the batch was inserted, and the
  -- commit was not refused.
  pub persist_atomic :
      (f : Faults) (rows : List Row) (ms : List TextMessage)
      → ((persist like f rows ms).1 ≡ rows)
        ⊎ (All (IsStored (persist like f rows ms).1) ms
            × Extends rows (persist like f rows ms).1
            × ((persist like f rows ms).1 ≡ insert_all rows ms)
            × (f.commit ≢ commit_refused))
  unfolding persist finish commit_result
  persist_atomic f rows [] = inl refl
  persist_atomic f rows (m ∷ ms) = elim (Option-cases (persist_loop like f 0 rows (m ∷ ms))) [
    | inl e ↦ inl (ground arith)
    | inr (new, e) ↦
        let (whole, stored) = persist_loop_lem f 0 rows (m ∷ ms) e in
        let extends : Extends rows new = rw whole (Extends-insert_all rows (m ∷ ms)) in
        elim (persist_table f rows m ms new e) [
          | inl k ↦ inl k
          | inr (k, n) ↦ inr (
            subst (λ (t : List Row). All (IsStored t) (m ∷ ms)) (sym k) stored,
            subst (λ (t : List Row). Extends rows t) (sym k) extends,
            k ∙ whole,
            n,
          )
        ]
  ]

  -- A retry of a batch that is stored already, on a database without faults, is reported as persisted
  -- and leaves the table as it is.
  persist_loop_again :
      (f : Faults) (i : ℕ) (rows : List Row) (ms : List TextMessage)
      → ((j : ℕ) → f.throws j ≡ false)
      → All (IsStored rows) ms
      → persist_loop like f i rows ms ≡ some rows
  unfolding persist_loop
  persist_loop_again f i rows [] ok st = refl
  persist_loop_again f i rows (m ∷ ms) ok st = ground (
    arith,
    ok i,
    ok (i + 1),
    insert_row_present like m rows st.0.0 st.0.1,
    verify_row_stored m rows st.0,
    persist_loop_again f (i + 2) rows ms ok st.1,
  )

  -- A batch that is not empty and is stored already is reported as persisted once more by a database
  -- that does nothing wrong, and the table stays the same: a client may send a batch again.
  pub persist_again :
      (f : Faults) (rows : List Row) (ms : List TextMessage)
      → IsFaultless f
      → 0 < length ms
      → All (IsStored rows) ms
      → persist like f rows ms ≡ (true, rows)
  unfolding persist finish commit_result
  persist_again f rows [] ok h st = absurd (omega arith)
  persist_again f rows (m ∷ ms) ok h st =
      ground
        (arith, ok.online, ok.setup, ok.commits, persist_loop_again f 0 rows (m ∷ ms) ok.silent st)

  -- The unique key of the table survives every transaction.
  pub persist-Distinct :
      (f : Faults) (rows : List Row) (ms : List TextMessage)
      → ((id : String) → like id id ≡ true)
      → Distinct (row_keys rows)
      → Distinct (row_keys (persist like f rows ms).1)
  persist-Distinct f rows ms reflexive d = elim (persist_atomic f rows ms) [
    | inl e ↦ rw e d
    | inr (_, _, e, _) ↦ rw e (insert_all-Distinct rows ms reflexive d)
  ]
