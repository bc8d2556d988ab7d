-- ===== src/Files/Table.antt =====
-- servers/chat/storage/MysqlDao.cpp: the operations on the table file_transfer. The table is the
-- list of its rows in the order of creation; times are in seconds. What the database may do wrong is
-- `Faults`; an update outside a transaction commits by itself, with the same three outcomes.
use text.Mathlib.Text.{◌==◌ as str_eq}
use distributed_chat_system.Prelude.{
  ℕ, ◌+◌, ◌*◌, ◌%◌, ◌^◌, min, ℤ, String, Bool, false, not, ◌||◌, ◌&&◌, Option, none, some, List, [],
  ◌∷◌, ◌++◌, map, ◌==◌, ltb, leb, int_eq, if◌then◌else◌, length, take, keep_if,
}
use distributed_chat_system.Messages.Table.{Faults, commit_result, finish, coalesce}
use distributed_chat_system.Files.Types.{
  uploading, available, downloaded, cancelled, TransferRecord, Transfer, is_uploading, is_available,
  is_live,
}

abbrev pub day : ℕ
day = 86400

abbrev pub max_items : ℕ
max_items = 16

abbrev pub max_total_bytes : ℕ
max_total_bytes = 1024 * 1024 * 1024

-- The rows that count against a sender's quota.
abbrev pub counts_for : ℕ → ℤ → Transfer → Bool
counts_for now sender r =
    int_eq r.file.sender_uid sender && ltb now r.expires_at && is_live r.file.status

-- COUNT(*) and COALESCE(SUM(total_size),0) of the quota query.
unfoldable pub item_count : ℕ → ℤ → List Transfer → ℕ
item_count now sender [] = 0
item_count now sender (r ∷ rs) =
    if counts_for now sender r then 1 + item_count now sender rs else item_count now sender rs

unfoldable pub total_bytes : ℕ → ℤ → List Transfer → ℕ
total_bytes now sender [] = 0
total_bytes now sender (r ∷ rs) =
    if counts_for now sender r
    then r.file.total_size + total_bytes now sender rs
    else total_bytes now sender rs

-- A row with this primary key.
unfoldable pub has_id : String → List Transfer → Bool
has_id id [] = false
has_id id (r ∷ rs) = str_eq r.file.id id || has_id id rs

abbrev pub new_row : ℕ → TransferRecord → Transfer
new_row now t = record {
  file = record t { uploaded_size = 0; status = uploading };
  completed_at = none;
  downloaded_at = none;
  expires_at = now + 7 * day;
}

-- The transaction of CreateFileTransfer up to its commit; `none` is a rollback. The sum with the
-- new size is one of 64-bit unsigned numbers. The insert throws on a key that is there and on a
-- receiver that is no user.
unfoldable pub create_loop :
    (ℤ → Bool) → Faults → ℕ → List Transfer → TransferRecord → Option (List Transfer)
unfolding item_count total_bytes has_id
create_loop is_user f now rows t =
    if f.throws 0 || not (is_user t.sender_uid)
    then none
    else (if f.throws 1
          || leb max_items (item_count now t.sender_uid rows)
          || ltb max_total_bytes ((total_bytes now t.sender_uid rows + t.total_size) % 2 ^ 64)
        then none
        else (if f.throws 2 || has_id t.id rows || not (is_user t.receiver_uid)
            then none
            else some (rows ++ new_row now t ∷ [])))

unfoldable pub create_file_transfer :
    (ℤ → Bool) → Faults → ℕ → List Transfer → TransferRecord → Bool × List Transfer
unfolding create_loop finish
create_file_transfer is_user f now rows t =
    if not f.connected || f.setup_throws
    then (false, rows)
    else finish f.commit rows (create_loop is_user f now rows t)

unfoldable pub find_file : ℕ → String → List Transfer → Option TransferRecord
find_file now id [] = none
find_file now id (r ∷ rs) =
    if str_eq r.file.id id && ltb now r.expires_at then some r.file else find_file now id rs

unfoldable pub get_file_transfer : Faults → ℕ → List Transfer → String → Option TransferRecord
unfolding find_file
get_file_transfer f now rows id =
    if not f.connected || f.throws 0 then none else find_file now id rows

unfoldable pub update_where :
    (Transfer → Bool) → (Transfer → Transfer) → List Transfer → List Transfer
update_where p g [] = []
update_where p g (r ∷ rs) = (if p r then g r else r) ∷ update_where p g rs

-- One UPDATE, with the number of rows that the driver reports for it.
unfoldable pub execute_update :
    Faults
    → (Transfer → Bool)
    → (Transfer → Bool)
    → (Transfer → Transfer)
    → List Transfer
    → Bool × List Transfer
unfolding update_where
execute_update f p counted g rows =
    if not f.connected || f.throws 0
    then (false, rows)
    else (let (told, rows') = commit_result f.commit rows (update_where p g rows) in
        (told && (length (keep_if counted rows) == 1), rows'))

abbrev pub can_advance : String → ℤ → ℕ → ℕ → Transfer → Bool
can_advance id sender expected next r =
    str_eq r.file.id id
    && int_eq r.file.sender_uid sender
    && is_uploading r.file.status
    && (r.file.uploaded_size == expected)
    && ltb r.file.uploaded_size next
    && leb next r.file.total_size

abbrev pub advance_row : ℕ → Transfer → Transfer
advance_row next r = record r { file = record r.file { uploaded_size = next } }

unfoldable pub advance_file_upload :
    Faults → List Transfer → String → ℤ → ℕ → ℕ → Bool × List Transfer
unfolding execute_update
advance_file_upload f rows id sender expected next =
    execute_update f (can_advance id sender expected next) (can_advance id sender expected next)
      (advance_row next) rows

abbrev pub can_complete : String → ℤ → Transfer → Bool
can_complete id sender r =
    str_eq r.file.id id
    && int_eq r.file.sender_uid sender
    && is_uploading r.file.status
    && (r.file.uploaded_size == r.file.total_size)

abbrev pub complete_row : ℕ → Transfer → Transfer
complete_row now r = record r {
  file = record r.file { status = available };
  completed_at = some now;
  expires_at = now + 7 * day;
}

unfoldable pub complete_file_transfer :
    Faults → ℕ → List Transfer → String → ℤ → Bool × List Transfer
unfolding execute_update
complete_file_transfer f now rows id sender =
    execute_update f (can_complete id sender) (can_complete id sender) (complete_row now) rows

abbrev pub can_download : String → ℤ → Transfer → Bool
can_download id receiver r =
    str_eq r.file.id id && int_eq r.file.receiver_uid receiver && is_available r.file.status

abbrev pub download_row : ℕ → Transfer → Transfer
download_row now r = record r {
  file = record r.file { status = downloaded };
  downloaded_at = coalesce r.downloaded_at now;
  expires_at = min r.expires_at (now + day);
}

-- The driver may count the rows that were found or the rows that were changed; `counts` says which
-- of the rows that this update finds are counted.
unfoldable pub mark_file_downloaded :
    (Transfer → Bool) → Faults → ℕ → List Transfer → String → ℤ → Bool × List Transfer
unfolding execute_update
mark_file_downloaded counts f now rows id receiver =
    execute_update f (can_download id receiver) (λ r. can_download id receiver r && counts r)
      (download_row now) rows

abbrev pub can_cancel : String → ℤ → Transfer → Bool
can_cancel id actor r =
    str_eq r.file.id id
    && (int_eq r.file.sender_uid actor || int_eq r.file.receiver_uid actor)
    && is_live r.file.status

abbrev pub cancel_row : ℕ → Transfer → Transfer
cancel_row now r = record r { file = record r.file { status = cancelled }; expires_at = now }

unfoldable pub cancel_file_transfer : Faults → ℕ → List Transfer → String → ℤ → Bool × List Transfer
unfolding execute_update
cancel_file_transfer f now rows id actor =
    execute_update f (can_cancel id actor) (can_cancel id actor) (cancel_row now) rows

-- expires_at<=NOW() OR status IN('cancelled','expired')
abbrev pub is_expired : ℕ → Transfer → Bool
is_expired now r = leb r.expires_at now || not (is_live r.file.status)

unfoldable pub get_expired_file_transfer_ids : Faults → ℕ → List Transfer → List String
get_expired_file_transfer_ids f now rows =
    if not f.connected || f.throws 0
    then []
    else take 200 (map (λ r. r.file.id) (keep_if (is_expired now) rows))

abbrev pub can_delete : ℕ → String → Transfer → Bool
can_delete now id r = str_eq r.file.id id && is_expired now r

unfoldable pub delete_file_transfer : Faults → ℕ → List Transfer → String → Bool × List Transfer
delete_file_transfer f now rows id =
    if not f.connected || f.throws 0
    then (false, rows)
    else (let (told, rows') =
          commit_result f.commit rows (keep_if (λ r. not (can_delete now id r)) rows) in
        (told && (length (keep_if (can_delete now id) rows) == 1), rows'))
