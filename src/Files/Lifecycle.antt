-- ===== src/Files/Lifecycle.antt =====
-- The life of one file transfer: which step each operation of the chat server's MysqlDao may make on a
-- row, and what holds of every row.
use distributed_chat_system.Prelude.{
  ℕ, ◌≤◌, ◌≡◌, inl, inr, refl, ℤ, String, Bool, not, subst, sym, ◌&&◌, ◌||◌, true, false, List, [],
  ◌∷◌, ◌++◌, All, arith, Bool-cases, keep_if,
}
use distributed_chat_system.Messages.Table.{
  Faults, CommitOutcome, committed, commit_refused, commit_reply_lost, commit_result,
}
use distributed_chat_system.Files.Types.{
  TransferStatus, uploading, available, downloaded, cancelled, expired, TransferRecord, Transfer,
  is_available, is_uploading,
}
use distributed_chat_system.Files.Quota.{create_file_transfer_table}
use distributed_chat_system.Files.Table.{
  new_row, create_file_transfer, update_where, execute_update, can_advance, advance_row,
  advance_file_upload, can_complete, complete_row, complete_file_transfer, can_download,
  download_row, mark_file_downloaded, can_cancel, cancel_row, cancel_file_transfer, can_delete,
  delete_file_transfer,
}

-- No more is uploaded than the file holds, and a file that can be fetched is complete.
pub record IsValid (r : Transfer) : Type 0 where
  pub bounded : r.file.uploaded_size ≤ r.file.total_size
  pub complete : is_available r.file.status ≡ true → r.file.uploaded_size ≡ r.file.total_size

-- What may be asked of MysqlDao.
pub data Request : Type 0 where
  create : TransferRecord → Request
  advance : String → ℤ → ℕ → ℕ → Request
  complete : String → ℤ → Request
  download : String → ℤ → Request
  cancel : String → ℤ → Request
  delete : String → Request

module _ (is_user : ℤ → Bool) (counts : Transfer → Bool) where
  unfoldable pub serve : Faults → ℕ → List Transfer → Request → Bool × List Transfer
  unfolding create_file_transfer advance_file_upload complete_file_transfer mark_file_downloaded
      cancel_file_transfer delete_file_transfer
  serve f now rows (create t) = create_file_transfer is_user f now rows t
  serve f now rows (advance id sender expected next) =
      advance_file_upload f rows id sender expected next
  serve f now rows (complete id sender) = complete_file_transfer f now rows id sender
  serve f now rows (download id receiver) = mark_file_downloaded counts f now rows id receiver
  serve f now rows (cancel id actor) = cancel_file_transfer f now rows id actor
  serve f now rows (delete id) = delete_file_transfer f now rows id

  -- The table after requests, each with its time and with what the database does wrong in it.
  unfoldable pub serve_all : List Transfer → List (Faults × ℕ × Request) → List Transfer
  unfolding serve
  serve_all rows [] = rows
  serve_all rows ((f, now, q) ∷ qs) = serve_all (serve f now rows q).1 qs

update_where-AllValid :
    (p : Transfer → Bool) (g : Transfer → Transfer) (rows : List Transfer)
    → ((r : Transfer) → p r ≡ true → IsValid r → IsValid (g r))
    → All IsValid rows
    → All IsValid (update_where p g rows)
unfolding update_where
update_where-AllValid p g [] step valid = tt
update_where-AllValid p g (r ∷ rs) step valid = elim (Bool-cases (p r)) [
  | inl e ↦ rw e (step r e valid.0, update_where-AllValid p g rs step valid.1)
  | inr e ↦ rw e (valid.0, update_where-AllValid p g rs step valid.1)
]

uploading_only : (s : TransferStatus) → is_uploading s ≡ true → is_available s ≡ false
uploading_only uploading e = refl
uploading_only available e = ground arith
uploading_only downloaded e = ground arith
uploading_only cancelled e = ground arith
uploading_only expired e = ground arith

advance_row-IsValid :
    (id : String) (sender : ℤ) (expected next : ℕ) (r : Transfer)
    → can_advance id sender expected next r ≡ true
    → IsValid r
    → IsValid (advance_row next r)
advance_row-IsValid id sender expected next r e valid = record {
  bounded = ground arith;
  complete = λ h. ground (arith, uploading_only r.file.status);
}

complete_row-IsValid :
    (id : String) (sender : ℤ) (now : ℕ) (r : Transfer)
    → can_complete id sender r ≡ true
    → IsValid r
    → IsValid (complete_row now r)
complete_row-IsValid id sender now r e valid = record {
  bounded = valid.bounded;
  complete = λ h. ground arith;
}

download_row-IsValid :
    (id : String) (receiver : ℤ) (now : ℕ) (r : Transfer)
    → can_download id receiver r ≡ true
    → IsValid r
    → IsValid (download_row now r)
download_row-IsValid id receiver now r e valid = record {
  bounded = valid.bounded;
  complete = λ h. valid.complete (ground arith);
}

cancel_row-IsValid : (now : ℕ) (r : Transfer) → IsValid r → IsValid (cancel_row now r)
cancel_row-IsValid now r valid = record { bounded = valid.bounded; complete = λ h. ground arith }

new_row-IsValid : (now : ℕ) (t : TransferRecord) → IsValid (new_row now t)
new_row-IsValid now t = record { bounded = omega arith; complete = λ h. ground arith }

append-AllValid :
    (rows : List Transfer) (r : Transfer)
    → All IsValid rows
    → IsValid r
    → All IsValid (rows ++ r ∷ [])
append-AllValid [] r valid h = (h, tt)
append-AllValid (q ∷ qs) r valid h = (valid.0, append-AllValid qs r valid.1 h)

keep_if-AllValid :
    (p : Transfer → Bool) (rows : List Transfer) → All IsValid rows → All IsValid (keep_if p rows)
unfolding keep_if
keep_if-AllValid p [] valid = tt
keep_if-AllValid p (r ∷ rs) valid = elim (Bool-cases (p r)) [
  | inl e ↦ rw e (valid.0, keep_if-AllValid p rs valid.1)
  | inr e ↦ rw e (keep_if-AllValid p rs valid.1)
]

-- Either table is valid, so the one that the commit leaves is.
commit_result-AllValid :
    (c : CommitOutcome) (old new : List Transfer)
    → All IsValid old
    → All IsValid new
    → All IsValid (commit_result c old new).1
unfolding commit_result
commit_result-AllValid committed old new h k = k
commit_result-AllValid commit_refused old new h k = h
commit_result-AllValid commit_reply_lost old new h k = k

execute_update-AllValid :
    (f : Faults) (p counted : Transfer → Bool) (g : Transfer → Transfer) (rows : List Transfer)
    → ((r : Transfer) → p r ≡ true → IsValid r → IsValid (g r))
    → All IsValid rows
    → All IsValid (execute_update f p counted g rows).1
unfolding execute_update
execute_update-AllValid f p counted g rows step valid =
    elim (Bool-cases (not f.connected || f.throws 0)) [
      | inl e ↦ rw e valid
      | inr e ↦ rw e (
          commit_result-AllValid f.commit rows (update_where p g rows) valid
            (update_where-AllValid p g rows step valid))
    ]

delete_file_transfer-AllValid :
    (f : Faults) (now : ℕ) (rows : List Transfer) (id : String)
    → All IsValid rows
    → All IsValid (delete_file_transfer f now rows id).1
unfolding delete_file_transfer
delete_file_transfer-AllValid f now rows id valid =
    elim (Bool-cases (not f.connected || f.throws 0)) [
      | inl e ↦ rw e valid
      | inr e ↦ rw e (
          commit_result-AllValid f.commit rows (keep_if (λ r. not (can_delete now id r)) rows) valid
            (keep_if-AllValid (λ r. not (can_delete now id r)) rows valid))
    ]

create_file_transfer-AllValid :
    (is_user : ℤ → Bool) (f : Faults) (now : ℕ) (rows : List Transfer) (t : TransferRecord)
    → All IsValid rows
    → All IsValid (create_file_transfer is_user f now rows t).1
create_file_transfer-AllValid is_user f now rows t valid =
    elim (create_file_transfer_table is_user f now rows t) [
      | inl e ↦ subst (All IsValid) (sym e) valid
      | inr (e, room) ↦
          subst (All IsValid) (sym e)
            (append-AllValid rows (new_row now t) valid (new_row-IsValid now t))
    ]

module _ (is_user : ℤ → Bool) (counts : Transfer → Bool) where
  serve-AllValid :
      (f : Faults) (now : ℕ) (rows : List Transfer) (q : Request)
      → All IsValid rows
      → All IsValid (serve is_user counts f now rows q).1
  unfolding serve advance_file_upload complete_file_transfer mark_file_downloaded
      cancel_file_transfer
  serve-AllValid f now rows (create t) valid =
      create_file_transfer-AllValid is_user f now rows t valid
  serve-AllValid f now rows (advance id sender expected next) valid =
      execute_update-AllValid f (can_advance id sender expected next)
        (can_advance id sender expected next) (advance_row next) rows
        (advance_row-IsValid id sender expected next) valid
  serve-AllValid f now rows (complete id sender) valid =
      execute_update-AllValid f (can_complete id sender) (can_complete id sender) (complete_row now)
        rows (complete_row-IsValid id sender now) valid
  serve-AllValid f now rows (download id receiver) valid =
      execute_update-AllValid f (can_download id receiver)
        (λ r. can_download id receiver r && counts r) (download_row now) rows
        (download_row-IsValid id receiver now) valid
  serve-AllValid f now rows (cancel id actor) valid =
      execute_update-AllValid f (can_cancel id actor) (can_cancel id actor) (cancel_row now) rows
        (λ r h. cancel_row-IsValid now r) valid
  serve-AllValid f now rows (delete id) valid = delete_file_transfer-AllValid f now rows id valid

  -- Whatever the operations of the chat server's MysqlDao are asked to do with the table of file
  -- transfers, in whatever order, at whatever times and with whatever faults of the database: when it
  -- starts with valid rows, then in every row no more is uploaded than the file holds, and a file
  -- that can be fetched has been uploaded in full. The resource server's own statements on the table
  -- are not among these operations.
  pub serve_all-IsValid :
      (requests : List (Faults × ℕ × Request)) (rows : List Transfer)
      → All IsValid rows
      → All IsValid (serve_all is_user counts rows requests)
  unfolding serve_all
  serve_all-IsValid [] rows valid = valid
  serve_all-IsValid ((f, now, q) ∷ qs) rows valid =
      serve_all-IsValid qs (serve is_user counts f now rows q).1 (serve-AllValid f now rows q valid)
