-- ===== src/Files/Advance.antt =====
-- AdvanceFileUpload as a compare and set: an offset is passed at most once.
use text.Mathlib.Text.{◌==◌ as str_eq}
use distributed_chat_system.Prelude.{
  ℕ, ◌≤◌, ==_iff, ◌≡◌, refl, ap, sym, ◌∙◌, inl, inr, ℤ, String, Bool, true, false, not, ◌||◌, ◌&&◌,
  List, [], ◌∷◌, arith, Bool-cases, keep_if, length, ◌==◌,
}
use distributed_chat_system.Messages.Table.{
  Faults, CommitOutcome, committed, commit_refused, commit_reply_lost, commit_result,
}
use distributed_chat_system.Files.Types.{Transfer}
use distributed_chat_system.Files.Table.{
  update_where, execute_update, can_advance, advance_row, advance_file_upload,
}

-- The rows with this id; the primary key makes it one at most.
abbrev pub id_rows : String → List Transfer → ℕ
id_rows id rows = length (keep_if (λ r. str_eq r.file.id id) rows)

-- An update that is reported as done was committed.
told_committed :
    (c : CommitOutcome) (old new : List Transfer) (b : Bool)
    → ((commit_result c old new).0 && b) ≡ true
    → (commit_result c old new).1 ≡ new
unfolding commit_result
told_committed committed old new b e = refl
told_committed commit_refused old new b e = ground arith
told_committed commit_reply_lost old new b e = ground arith

refused_update :
    (f : Faults) (p counted : Transfer → Bool) (g : Transfer → Transfer) (rows : List Transfer)
    → (not f.connected || f.throws 0) ≡ true
    → (execute_update f p counted g rows).0 ≡ false
unfolding execute_update
refused_update f p counted g rows h = rw h refl

executed_update :
    (f : Faults) (p counted : Transfer → Bool) (g : Transfer → Transfer) (rows : List Transfer)
    → (not f.connected || f.throws 0) ≡ false
    → (execute_update f p counted g rows).0 ≡ (
        (commit_result f.commit rows (update_where p g rows)).0
        && (length (keep_if counted rows) == 1))
unfolding execute_update
executed_update f p counted g rows h = rw h refl

executed_table :
    (f : Faults) (p counted : Transfer → Bool) (g : Transfer → Transfer) (rows : List Transfer)
    → (execute_update f p counted g rows).0 ≡ true
    → (execute_update f p counted g rows).1 ≡ update_where p g rows
unfolding execute_update
executed_table f p counted g rows e = elim (Bool-cases (not f.connected || f.throws 0)) [
  | inl h ↦ ground (arith, refused_update f p counted g rows h, e)
  | inr h ↦ rw h (
      told_committed f.commit rows (update_where p g rows) (length (keep_if counted rows) == 1)
        (sym (executed_update f p counted g rows h) ∙ e))
]

and-true : (a b : Bool) → (a && b) ≡ true → b ≡ true
and-true true b e = e
and-true false b e = ground (arith, e)

and_false : (b : Bool) → (b && false) ≡ false
and_false true = refl
and_false false = refl

unmatched_update :
    (f : Faults) (p : Transfer → Bool) (g : Transfer → Transfer) (rows : List Transfer)
    → keep_if p rows ≡ []
    → (execute_update f p p g rows).0 ≡ false
unfolding execute_update
unmatched_update f p g rows e = elim (Bool-cases (not f.connected || f.throws 0)) [
  | inl h ↦ rw h refl
  | inr h ↦ rw (h, e) (and_false (commit_result f.commit rows (update_where p g rows)).0)
]

-- An update that is reported as done has counted one row.
executed_one :
    (f : Faults) (p : Transfer → Bool) (g : Transfer → Transfer) (rows : List Transfer)
    → (execute_update f p p g rows).0 ≡ true
    → length (keep_if p rows) ≡ 1
executed_one f p g rows e = elim (Bool-cases (not f.connected || f.throws 0)) [
  | inl h ↦ ground (arith, refused_update f p p g rows h, e)
  | inr h ↦ (==_iff (length (keep_if p rows)) 1).0 (
      and-true (commit_result f.commit rows (update_where p g rows)).0
        (length (keep_if p rows) == 1) (sym (executed_update f p p g rows h) ∙ e))
]

module _ (id : String) (sender sender' : ℤ) (expected next next' : ℕ) where
  abbrev first : Transfer → Bool
  first = can_advance id sender expected next

  abbrev second : Transfer → Bool
  second = can_advance id sender' expected next'

  count_le : (rows : List Transfer) → length (keep_if first rows) ≤ id_rows id rows
  unfolding keep_if
  count_le [] = omega arith
  count_le (r ∷ rows) = ground (arith, count_le rows)

  none_named :
      (rows : List Transfer)
      → id_rows id rows ≡ 0
      → keep_if second (update_where first (advance_row next) rows) ≡ []
  unfolding keep_if update_where
  none_named [] h = refl
  none_named (r ∷ rows) h = elim (Bool-cases (str_eq r.file.id id)) [
    | inl here ↦ absurd (ground (arith, here, h))
    | inr there ↦
        let rest = none_named rows (ground (arith, there, h)) in ground (arith, there, rest)
  ]

  none_left :
      (rows : List Transfer)
      → id_rows id rows ≤ 1
      → length (keep_if first rows) ≡ 1
      → keep_if second (update_where first (advance_row next) rows) ≡ []
  unfolding keep_if update_where
  none_left [] unique one = refl
  none_left (r ∷ rows) unique one = elim (Bool-cases (str_eq r.file.id id)) [
    | inl here ↦
        let rest = none_named rows (ground (arith, here, unique)) in
        let matched : first r ≡ true = ground (arith, count_le rows, unique, one, here) in
        let moved : second (advance_row next r) ≡ false = ground (arith, matched) in
        rw (matched, moved) rest
    | inr there ↦
        let rest = none_left rows (ground (arith, there, unique)) (ground (arith, there, one)) in
        let unmatched : first r ≡ false = ground (arith, there) in
        let other : second r ≡ false = ground (arith, there) in rw (unmatched, other) rest
  ]

-- When AdvanceFileUpload has returned true, no call that expects the same offset of this file
-- returns true on the table that it left, whoever sends it, to whatever offset it would move, and
-- whatever the database does in either. The id is taken to be the key of one row.
pub advance_file_upload_once :
    (f g : Faults) (rows : List Transfer) (id : String) (sender sender' : ℤ)
    (expected next next' : ℕ)
    → id_rows id rows ≤ 1
    → (advance_file_upload f rows id sender expected next).0 ≡ true
    → (advance_file_upload g
        (advance_file_upload f rows id sender expected next).1
        id
        sender'
        expected
        next').0
      ≡ false
unfolding advance_file_upload
advance_file_upload_once f g rows id sender sender' expected next next' unique e =
    let p = can_advance id sender expected next in
    let q = can_advance id sender' expected next' in
    unmatched_update g q (advance_row next') (execute_update f p p (advance_row next) rows).1 (
      ap (keep_if q) (executed_table f p p (advance_row next) rows e)
      ∙ none_left id sender sender' expected next next' rows unique
          (executed_one f p (advance_row next) rows e))
