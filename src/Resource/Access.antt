-- ===== src/Resource/Access.antt =====
-- Service::handle behind the authentication: the requests on one file that it serves itself.
use distributed_chat_system.Prelude.{
  ℕ, ◌+◌, ℤ, Bool, true, false, not, ◌||◌, ◌&&◌, String, Option, none, some, List, int_eq, min,
  same, if◌then◌else◌, Result, ok, err, ◌>>=◌, ◌>>◌, raise_if, string_eq,
}
use distributed_chat_system.Messages.Table.{CommitOutcome, commit_result}
use distributed_chat_system.Files.Types.{
  downloaded, cancelled, Transfer, is_uploading, is_available,
}
use distributed_chat_system.Files.Table.{update_where}
use distributed_chat_system.Resource.{
  Problem, error, internal, require, valid_id, file, is_expired, is_cancelled,
}
use distributed_chat_system.Resource.Range.{part_of}

-- The first segment of the path.
pub data Group : Type 0 where
  uploads files : Group

-- The method with the rest of the path: GET and DELETE of the id, POST downloaded, GET content with
-- its header `Range`, and what is left of the requests that handle serves itself: it hands a PUT of
-- chunks and a POST of complete, in the group uploads, to `chunk` and `complete` before.
pub data Call : Type 0 where
  fetch delete mark_downloaded : Call
  content : Option (List ℕ) → Call
  other : Call

-- The description of a file, 204, or a stream from a byte on.
pub data Answer : Type 0 where
  described : Transfer → Answer
  no_content : Answer
  stream : ℕ → ℕ → Answer

pub record AccessIo : Type 0 where
  pub locked : Bool
  pub leased : Bool
  pub now : ℕ
  pub update : CommitOutcome

abbrev pub is_uploads : Group → Bool
is_uploads uploads = true
is_uploads files = false

-- SET status='cancelled',expires_at=NOW()
abbrev pub cancelled_row : ℕ → Transfer → Transfer
cancelled_row now r = record r { file = record r.file { status = cancelled }; expires_at = now }

-- SET status='downloaded',downloaded_at=COALESCE(downloaded_at,NOW()),
--   expires_at=LEAST(expires_at,DATE_ADD(NOW(),INTERVAL 1 DAY))
abbrev pub downloaded_row : ℕ → Transfer → Transfer
downloaded_row now r = record r {
  file = record r.file { status = downloaded };
  downloaded_at = some (elim r.downloaded_at [ none ↦ now | some at ↦ at ]);
  expires_at = min r.expires_at (now + 86400);
}

-- The tests that every request of a file passes.
unfoldable pub check_access :
    AccessIo → ℤ → List Transfer → Group → String → Result Problem Transfer
unfolding file
check_access io uid rows group id = do
  raise_if (not (valid_id id) || not io.locked || not io.leased) internal
  f ← file rows id
  require (int_eq f.file.sender_uid uid || int_eq f.file.receiver_uid uid) 403
  require (not (is_uploads group) || int_eq f.file.sender_uid uid) 403
  require (not (is_expired io.now f) && not (is_cancelled f.file.status)) 410
  ok f

-- The tests for the receiver's requests.
unfoldable pub check_receiver : ℤ → Group → Transfer → Result Problem (Unit {0})
check_receiver uid group f = do
  require (not (is_uploads group) && int_eq f.file.receiver_uid uid) 403
  require (is_available f.file.status) 409

unfoldable pub stream_of : Transfer → Option (List ℕ) → Result Problem Answer
unfolding part_of
stream_of f none = ok (stream 0 f.file.total_size)
stream_of f (some range) = do p ← part_of f.file.total_size range; ok (stream p.begin p.count)

-- An UPDATE of the row with the id, or an exception.
unfoldable pub update_row :
    AccessIo
    → List Transfer
    → String
    → (Transfer → Transfer)
    → Answer
    → Result Problem Answer × List Transfer
unfolding update_where commit_result
update_row io rows id g answer =
    let (told, rows') =
      commit_result io.update rows (update_where (λ r. same r.file.id id) g rows) in
    (if told then ok answer else err internal, rows')

unfoldable pub respond :
    AccessIo
    → ℤ
    → List Transfer
    → Group
    → String
    → Transfer
    → Call
    → Result Problem Answer × List Transfer
unfolding check_receiver stream_of update_row
respond io uid rows group id f fetch = (ok (described f), rows)
respond io uid rows group id f delete =
    if is_uploads group && not (is_uploading f.file.status)
    then (err (error 409), rows)
    else update_row io rows id (cancelled_row io.now) no_content
respond io uid rows group id f mark_downloaded = elim (check_receiver uid group f) [
  | err e ↦ (err e, rows)
  | ok u ↦ update_row io rows id (downloaded_row io.now) (described f)
]
respond io uid rows group id f (content range) = elim (check_receiver uid group f) [
  | err e ↦ (err e, rows)
  | ok u ↦ (stream_of f range, rows)
]
respond io uid rows group id f other = elim (check_receiver uid group f) [
  | err e ↦ (err e, rows)
  | ok u ↦ (err (error 404), rows)
]

unfoldable pub handle :
    AccessIo → ℤ → List Transfer → Group → String → Call → Result Problem Answer × List Transfer
unfolding check_access respond
handle io uid rows group id call = elim (check_access io uid rows group id) [
  | err e ↦ (err e, rows)
  | ok f ↦ respond io uid rows group id f call
]
