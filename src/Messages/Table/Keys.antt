-- ===== src/Messages/Table/Keys.antt =====
-- Finding rows by their key, and the unique key of the table.
use distributed_chat_system.Prelude.{
  true, false, ◌≡◌, refl, String, subst, int_eq_iff, none, some, List, [], ◌∷◌, ◌++◌, map,
  if◌then◌else◌, contains, pair_eq, pair_beq, pair_beq_iff, arith, Distinct,
}
use distributed_chat_system.Messages.Types.{TextMessage, Key, key, Collation, is_key}
use distributed_chat_system.Messages.Table.{Row, row_key, find_row, insert_row}

abbrev pub row_keys : List Row → List Key
row_keys rows = map row_key rows

abbrev pub fresh_row : TextMessage → Row
fresh_row m = record { message = m; acknowledged_at = none }

contains-append :
    (k : Key) (rows : List Row) (r : Row)
    → contains (row_keys rows) k ≡ false
    → pair_beq (row_key r) k ≡ false
    → contains (row_keys (rows ++ r ∷ [])) k ≡ false
unfolding contains
contains-append k [] r h n = ground arith
contains-append k (x ∷ rows) r h n = ground (arith, contains-append k rows r)

Distinct-append :
    (rows : List Row) (r : Row)
    → Distinct (row_keys rows)
    → contains (row_keys rows) (row_key r) ≡ false
    → Distinct (row_keys (rows ++ r ∷ []))
unfolding contains
Distinct-append [] r d h = ground arith
Distinct-append (x ∷ rows) r d h = ground (
  arith,
  Distinct-append rows r d.1,
  contains-append (row_key x) rows r,
  pair_beq_iff (row_key x) (row_key r),
  pair_beq_iff (row_key r) (row_key x),
)

module _ (like : Collation) where
  pub find_row-append :
      (k : Key) (rows : List Row) (r : Row)
      → find_row like k (rows ++ r ∷ []) ≡ elim (find_row like k rows) [
        | none ↦ (if is_key like (row_key r) k then some r else none)
        | some s ↦ some s
      ]
  unfolding find_row
  find_row-append k [] r = ground arith
  find_row-append k (x ∷ rows) r = ground (arith, find_row-append k rows r)

  -- A row that is found has the key it was asked for, in the collation.
  pub find_row_key :
      (k : Key) (rows : List Row) (r : Row)
      → find_row like k rows ≡ some r
      → is_key like (row_key r) k ≡ true
  unfolding find_row
  find_row_key k [] r h = ground arith
  find_row_key k (x ∷ rows) r h = ground (arith, find_row_key k rows r)

  pub find_row-insert_row_kept :
      (k : Key) (m : TextMessage) (rows : List Row) (r : Row)
      → find_row like k rows ≡ some r
      → find_row like k (insert_row like m rows) ≡ some r
  unfolding insert_row
  find_row-insert_row_kept k m rows r h = ground (arith, find_row-append k rows (fresh_row m))

  pub insert_row_present :
      (m : TextMessage) (rows : List Row) (r : Row)
      → find_row like (key m) rows ≡ some r
      → insert_row like m rows ≡ rows
  unfolding insert_row
  insert_row_present m rows r h = ground arith

  module _ (reflexive : (id : String) → like id id ≡ true) where
    is_key_self : (k : Key) → is_key like k k ≡ true
    is_key_self (sender, id) = ground (arith, int_eq_iff sender sender, reflexive id)

    is_key_same : (j k : Key) → j ≡ k → is_key like j k ≡ true
    is_key_same j k e = subst (λ (x : Key). is_key like j x ≡ true) e (is_key_self j)

    contains-find_row :
        (k : Key) (rows : List Row)
        → find_row like k rows ≡ none
        → contains (row_keys rows) k ≡ false
    unfolding find_row contains
    contains-find_row k [] h = refl
    contains-find_row k (x ∷ rows) h =
        ground
          (arith, contains-find_row k rows, pair_beq_iff (row_key x) k, is_key_same (row_key x) k)

    -- The unique key holds after an insertion.
    pub insert_row-Distinct :
        (m : TextMessage) (rows : List Row)
        → Distinct (row_keys rows)
        → Distinct (row_keys (insert_row like m rows))
    unfolding insert_row
    insert_row-Distinct m rows d =
        ground (arith, Distinct-append rows (fresh_row m) d, contains-find_row (key m) rows)
