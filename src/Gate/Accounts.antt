-- ===== src/Gate/Accounts.antt =====
-- MysqlDao of the gate server: the tables user and user_id, RegUserTransaction, CheckEmail, UpdatePwd
-- and CheckPwd.
use distributed_chat_system.Prelude.{
  ℕ, ◌+◌, Bool, false, not, ◌||◌, ◌&&◌, String, Option, none, some, List, [], ◌∷◌, ◌++◌, ◌==◌,
  length, keep_if, is_some, same, if◌then◌else◌, Result, ok, err, string_eq, nat_eq,
}
use distributed_chat_system.Messages.Table.{Faults, CommitOutcome, commit_result}
use distributed_chat_system.Gate.{
  Argon2, Thrown, Verification, invalid, valid, upgrade, hash, verify_credential,
}

pub record User : Type 0 where
  pub uid : ℕ
  pub name : String
  pub email : String
  pub pwd : String
  pub password_scheme : String
  pub nick : String
  pub icon : String

-- The last uid is the only row of user_id.
pub record Accounts : Type 0 where
  pub last_uid : ℕ
  pub users : List User

-- `=` of the table's collation is a parameter: it may ignore case, unlike BINARY.
unfoldable pub find_email : (String → String → Bool) → String → List User → Option User
find_email collate email [] = none
find_email collate email (u ∷ users) =
    if collate u.email email then some u else find_email collate email users

unfoldable pub find_name : (String → String → Bool) → String → List User → Option User
find_name collate name [] = none
find_name collate name (u ∷ users) =
    if collate u.name name then some u else find_name collate name users

unfoldable pub find_uid : ℕ → List User → Option User
find_uid uid [] = none
find_uid uid (u ∷ users) = if u.uid == uid then some u else find_uid uid users

unfoldable pub update_users : (User → Bool) → (User → User) → List User → List User
update_users p g [] = []
update_users p g (u ∷ users) =
    if p u then g u ∷ update_users p g users else u ∷ update_users p g users

-- password_scheme has the default 'argon2id_raw'.
abbrev pub new_user : ℕ → String → String → String → String → User
new_user uid name email pwd icon = record {
  uid = uid;
  name = name;
  email = email;
  pwd = pwd;
  password_scheme = "argon2id_raw";
  nick = name;
  icon = icon;
}

abbrev pub set_password : String → User → User
set_password pwd u = record u { pwd = pwd; password_scheme = "argon2id_raw" }

-- The statements in order: the two queries, the counter's update and query, the insertion.
unfoldable pub insert_user :
    (String → String → Bool)
    → Faults
    → Accounts
    → String
    → String
    → String
    → String
    → Option (ℕ × Accounts)
unfolding find_email find_name find_uid
insert_user collate f t name email pwd icon =
    if f.throws 0 || is_some (find_email collate email t.users)
    then none
    else (if f.throws 1 || is_some (find_name collate name t.users)
        then none
        else (if f.throws 2
              || f.throws 3
              || f.throws 4
              || is_some (find_uid (t.last_uid + 1) t.users)
            then none
            else some (
              t.last_uid + 1,
              record {
                last_uid = t.last_uid + 1;
                users = t.users ++ new_user (t.last_uid + 1) name email pwd icon ∷ [];
              },
            )))

-- What LogicSystem learns: the new uid, or that there is none (0, -1 or false).
abbrev pub Registered : Type 0
Registered = Result Thrown (Option ℕ) × Accounts

unfoldable pub finish_registration : CommitOutcome → Accounts → Option (ℕ × Accounts) → Registered
unfolding commit_result
finish_registration c t none = (ok none, t)
finish_registration c t (some (uid, new)) =
    let (told, t') = commit_result c t new in (ok (if told then some uid else none), t')

-- What a login is answered: the account, a wrong password, or a database that is not available.
pub data Login : Type 0 where
  logged_in : ℕ → String → Login
  refused unavailable : Login

-- WHERE uid = ? AND BINARY pwd = BINARY ? AND password_scheme = ?
abbrev pub is_current : User → User → Bool
is_current old u =
    (u.uid == old.uid) && same u.pwd old.pwd && same u.password_scheme old.password_scheme

-- ApplyPasswordUpgradeIfCurrent with its statement, on the table as it is then.
unfoldable pub apply_upgrade : Faults → User → Verification → List User → Login × List User
unfolding update_users keep_if commit_result
apply_upgrade f old invalid users = (refused, users)
apply_upgrade f old valid users = (logged_in old.uid old.name, users)
apply_upgrade f old (upgrade upgraded) users =
    let (told, users') =
      commit_result f.commit users (update_users (is_current old) (set_password upgraded) users) in
    (
      if not told
          then unavailable
          else (if length (keep_if (is_current old) users) == 1
              then logged_in old.uid old.name
              else refused),
      users',
    )

module _ (argon : Argon2) (collate : String → String → Bool) where
  unfoldable pub reg_user_transaction :
      Faults → ℕ → Accounts → String → String → String → String → Registered
  unfolding hash insert_user finish_registration
  reg_user_transaction f salt t name email pwd icon =
      if not f.connected then (ok none, t) else elim (hash argon salt pwd) [
        | err e ↦ (err e, t)
        | ok password_hash ↦
            finish_registration f.commit t (insert_user collate f t name email password_hash icon)
      ]

  -- The table at the query and the table at the update: in between, others may have changed it.
  unfoldable pub check_pwd :
      Faults → ℕ → List User → List User → String → String → Result Thrown Login × List User
  unfolding find_email verify_credential apply_upgrade
  check_pwd f salt before users email pwd =
      if not f.connected || f.throws 0
      then (ok unavailable, users)
      else elim (find_email collate email before) [
        | none ↦ (ok refused, users)
        | some old ↦ elim (verify_credential argon salt pwd old.pwd old.password_scheme) [
          | err e ↦ (err e, users)
          | ok verification ↦
              let (login, users') = apply_upgrade f old verification users in (ok login, users')
        ]
      ]

  unfoldable pub check_email : Faults → List User → String → String → Bool
  unfolding find_name
  check_email f users name email =
      f.connected
      && not (f.throws 0)
      && elim (find_name collate name users) [ none ↦ false | some u ↦ same email u.email ]

  -- The answer is true whether or not there was a row with the name.
  unfoldable pub update_pwd :
      Faults → ℕ → List User → String → String → Result Thrown Bool × List User
  unfolding hash update_users commit_result
  update_pwd f salt users name newpwd =
      if not f.connected then (ok false, users) else elim (hash argon salt newpwd) [
        | err e ↦ (err e, users)
        | ok password_hash ↦
            let (told, users') =
              commit_result f.commit users
                (update_users (λ u. collate u.name name) (set_password password_hash) users) in
            (ok told, users')
      ]
