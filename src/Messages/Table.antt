-- ===== src/Messages/Table.antt =====
-- servers/chat/storage/MysqlDao.cpp: the table chat_message and its three operations.
-- The table is the list of its rows in the order of their auto-increment ids. A transaction runs
-- alone (the row locks of InnoDB serialize them). Ids are compared by the table's collation, which is
-- a parameter, utf8mb4_unicode_ci in database/schema.sql; contents byte by byte, in C++. What the
-- database may do wrong is in `Faults`: no connection, a statement that throws, a commit that throws
-- before or after it took effect.
pub mod Keys
pub mod Persist
pub mod Acknowledge
use text.Mathlib.Text.{◌==◌ as str_eq}
use distributed_chat_system.Prelude.{
  ℕ, ◌+◌, ◌*◌, suc, zero, ℤ, String, Bool, true, false, not, ◌||◌, ◌&&◌, Option, none, some, List,
  [], ◌∷◌, ◌++◌, map, ◌==◌, is_positive, int_eq, if◌then◌else◌, length, take, keep_if, contains,
  pair_eq, pair_beq, string_eq,
}
use distributed_chat_system.Messages.Types.{TextMessage, Key, key, Collation, is_key}

pub record Row : Type 0 where
  pub message : TextMessage
  pub acknowledged_at : Option ℕ

abbrev pub row_key : Row → Key
row_key r = key r.message

pub data CommitOutcome : Type 0 where
  committed commit_refused commit_reply_lost : CommitOutcome

pub record Faults : Type 0 where
  pub connected : Bool
  pub setup_throws : Bool
  -- Whether the statement with this number throws.
  pub throws : ℕ → Bool
  pub commit : CommitOutcome

-- What the caller is told and what the table holds after a transaction that was not rolled back.
unfoldable pub commit_result {ℓ} : {A : Type ℓ} → CommitOutcome → A → A → Bool × A
commit_result committed old new = (true, new)
commit_result commit_refused old new = (false, old)
commit_result commit_reply_lost old new = (false, new)

unfoldable pub finish {ℓ} : {A : Type ℓ} → CommitOutcome → A → Option A → Bool × A
finish c old none = (false, old)
finish c old (some new) = commit_result c old new

-- WHERE receiver_uid=? AND acknowledged_at IS NULL
unfoldable pub is_pending : ℤ → Row → Bool
is_pending receiver r =
    int_eq r.message.receiver_uid receiver
    && elim r.acknowledged_at [ none ↦ true | some t ↦ false ]

abbrev pub pending_rows : ℤ → List Row → List TextMessage
pending_rows receiver rows = map (λ r. r.message) (keep_if (is_pending receiver) rows)

unfoldable pub get_pending : Faults → List Row → ℤ → ℕ → Option (List TextMessage)
get_pending f rows receiver limit =
    if not (is_positive receiver) || (limit == 0) || not f.connected || f.setup_throws || f.throws 0
    then none
    else some (take limit (pending_rows receiver rows))

-- acknowledged_at=COALESCE(acknowledged_at,NOW())
abbrev pub coalesce : Option ℕ → ℕ → Option ℕ
coalesce none now = some now
coalesce (some t) now = some t

module _ (like : Collation) where
  unfoldable pub find_row : Key → List Row → Option Row
  find_row k [] = none
  find_row k (r ∷ rs) = if is_key like (row_key r) k then some r else find_row k rs

  -- INSERT ... ON DUPLICATE KEY UPDATE client_message_id=client_message_id
  unfoldable pub insert_row : TextMessage → List Row → List Row
  insert_row m rows = elim (find_row (key m) rows) [
    | none ↦ rows ++ record { message = m; acknowledged_at = none } ∷ []
    | some r ↦ rows
  ]

  -- The verification: the row with the key exists and has this receiver and this content.
  unfoldable pub verify_row : TextMessage → List Row → Bool
  verify_row m rows = elim (find_row (key m) rows) [
    | none ↦ false
    | some r ↦ int_eq r.message.receiver_uid m.receiver_uid && str_eq r.message.content m.content
  ]

  -- The loop of PersistTextMessages from statement `i` on; `none` is a rollback.
  unfoldable pub persist_loop : Faults → ℕ → List Row → List TextMessage → Option (List Row)
  persist_loop f i rows [] = some rows
  persist_loop f i rows (m ∷ ms) =
      let rows' = insert_row m rows in
      let rest = persist_loop f (i + 2) rows' ms in
      if f.throws i || f.throws (i + 1) then none else (if verify_row m rows' then rest else none)

  unfoldable pub persist : Faults → List Row → List TextMessage → Bool × List Row
  persist f rows [] = (false, rows)
  persist f rows (m ∷ ms) =
      if not f.connected || f.setup_throws
      then (false, rows)
      else finish f.commit rows (persist_loop f 0 rows (m ∷ ms))

  -- One UPDATE, on one row.
  unfoldable pub acknowledge_row : ℕ → ℤ → ℤ → String → Row → Row
  acknowledge_row now receiver sender id r =
      if int_eq r.message.receiver_uid receiver
        && int_eq r.message.sender_uid sender
        && like r.message.client_message_id id
      then record r { acknowledged_at = coalesce r.acknowledged_at now }
      else r

  unfoldable pub acknowledge_loop :
      Faults → ℕ → ℕ → ℤ → ℤ → List Row → List String → Option (List Row)
  acknowledge_loop f i now receiver sender rows [] = some rows
  acknowledge_loop f i now receiver sender rows (id ∷ ids) =
      let rows' = map (acknowledge_row now receiver sender id) rows in
      let rest = acknowledge_loop f (i + 1) now receiver sender rows' ids in
      if f.throws i then none else rest

  unfoldable pub acknowledge : Faults → ℕ → List Row → ℤ → ℤ → List String → Bool × List Row
  acknowledge f now rows receiver sender ids =
      if not (is_positive receiver)
        || not (is_positive sender)
        || (length ids == 0)
        || not f.connected
        || f.setup_throws
      then (false, rows)
      else finish f.commit rows (acknowledge_loop f 0 now receiver sender rows ids)
