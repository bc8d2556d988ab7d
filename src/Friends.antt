-- ===== src/Friends.antt =====
-- The acceptance of a friend application: ExecuteFriendAcceptanceTransaction of
-- common/FriendAcceptanceTransaction.h with the store that MysqlDao::AddFriend of
-- servers/chat/storage/MysqlDao.cpp gives it, and MysqlDao::CheckFriendRelation.
-- The tables friend and friend_apply are lists of rows; a transaction runs alone.
pub mod Acceptance
pub mod Relation
pub mod Applications
use distributed_chat_system.Prelude.{
  ℕ, ◌+◌, ℤ, pos, negsuc, String, Bool, true, false, not, ◌||◌, ◌&&◌, Option, none, some, List, [],
  ◌∷◌, ◌++◌, ◌==◌, int_eq, leb, if◌then◌else◌,
}
use distributed_chat_system.Messages.Table.{
  Faults, CommitOutcome, committed, commit_refused, commit_reply_lost,
}

pub data FriendAcceptanceResult : Type 0 where
  success pending_missing storage_error : FriendAcceptanceResult

pub record Friend : Type 0 where
  pub self_id : ℤ
  pub friend_id : ℤ
  pub back : String

pub record Application : Type 0 where
  pub from_uid : ℤ
  pub to_uid : ℤ
  pub status : ℕ

pub record Tables : Type 0 where
  pub friends : List Friend
  pub applications : List Application

abbrev pub is_pair : ℤ → ℤ → Friend → Bool
is_pair self_uid friend_uid r = int_eq r.self_id self_uid && int_eq r.friend_id friend_uid

-- The rows with this key; the table's primary key makes it one at most.
unfoldable pub pair_count : ℤ → ℤ → List Friend → ℕ
pair_count self_uid friend_uid [] = 0
pair_count self_uid friend_uid (r ∷ rs) =
    if is_pair self_uid friend_uid r
    then 1 + pair_count self_uid friend_uid rs
    else pair_count self_uid friend_uid rs

-- INSERT IGNORE INTO friend: nothing for a key that is there and for an id that is no user.
unfoldable pub insert_friend : (ℤ → Bool) → ℤ → ℤ → String → List Friend → ℤ × List Friend
unfolding pair_count
insert_friend is_user self_uid friend_uid back rows =
    if leb 1 (pair_count self_uid friend_uid rows)
      || not (is_user self_uid)
      || not (is_user friend_uid)
    then (pos 0, rows)
    else (pos 1, rows ++ record { self_id = self_uid; friend_id = friend_uid; back = back } ∷ [])

-- WHERE from_uid = ? AND to_uid = ? AND status = 0
abbrev pub is_pending : ℤ → ℤ → Application → Bool
is_pending applicant accepter a =
    int_eq a.from_uid applicant && int_eq a.to_uid accepter && (a.status == 0)

unfoldable pub pending_count : ℤ → ℤ → List Application → ℕ
pending_count applicant accepter [] = 0
pending_count applicant accepter (a ∷ rest) =
    if is_pending applicant accepter a
    then 1 + pending_count applicant accepter rest
    else pending_count applicant accepter rest

-- UPDATE friend_apply SET status = 1
unfoldable pub accept_pending : ℤ → ℤ → List Application → List Application
accept_pending applicant accepter [] = []
accept_pending applicant accepter (a ∷ rest) =
    (if is_pending applicant accepter a then record a { status = 1 } else a)
    ∷ accept_pending applicant accepter rest

abbrev pub is_negative : ℤ → Bool
is_negative (pos n) = false
is_negative (negsuc n) = true

-- What a commit leaves: success, or the exception, which is `none`.
unfoldable pub commit_acceptance :
    CommitOutcome → Tables → Tables → Option FriendAcceptanceResult × Tables
commit_acceptance committed old new = (some success, new)
commit_acceptance commit_refused old new = (none, old)
commit_acceptance commit_reply_lost old new = (none, new)

-- ExecuteFriendAcceptanceTransaction; `none` is an exception that is thrown on.
unfoldable pub execute_acceptance :
    (ℤ → Bool) → Faults → Tables → ℤ → ℤ → String → Option FriendAcceptanceResult × Tables
unfolding insert_friend accept_pending pending_count commit_acceptance
execute_acceptance is_user f old accepter applicant back =
    let (first, once) = insert_friend is_user accepter applicant back old.friends in
    let (second, twice) = insert_friend is_user applicant accepter "" once in
    if f.setup_throws || f.throws 0
    then (none, old)
    else (if is_negative first
        then (some storage_error, old)
        else (if f.throws 1
            then (none, old)
            else (if is_negative second
                then (some storage_error, old)
                else (if f.throws 2
                    then (none, old)
                    else (if not (pending_count applicant accepter old.applications == 1)
                        then (some pending_missing, old)
                        else commit_acceptance f.commit old (record {
                          friends = twice;
                          applications = accept_pending applicant accepter old.applications;
                        }))))))

-- The catch of AddFriend.
unfoldable pub or_error : Option FriendAcceptanceResult × Tables → FriendAcceptanceResult × Tables
or_error (none, tables) = (storage_error, tables)
or_error (some result, tables) = (result, tables)

unfoldable pub add_friend :
    (ℤ → Bool) → Faults → Tables → ℤ → ℤ → String → FriendAcceptanceResult × Tables
unfolding execute_acceptance or_error
add_friend is_user f old accepter applicant back =
    if not f.connected
    then (storage_error, old)
    else or_error (execute_acceptance is_user f old accepter applicant back)

-- SELECT COUNT(*) AS relation_count
unfoldable pub relation_count : ℤ → ℤ → List Friend → ℕ
relation_count a b [] = 0
relation_count a b (r ∷ rs) =
    if is_pair a b r || is_pair b a r then 1 + relation_count a b rs else relation_count a b rs

unfoldable pub check_friend_relation : Faults → Tables → ℤ → ℤ → Option Bool
unfolding relation_count
check_friend_relation f tables first second =
    if not f.connected || f.throws 0
    then none
    else some (relation_count first second tables.friends == 2)
