-- ===== src/Tests/Credentials.antt =====
-- Examples for the credentials: one account, registered, reset and migrated, and one code.
use distributed_chat_system.Prelude.{
  ℕ, ◌+◌, ◌*◌, ◌/◌, ◌<◌, ◌≤◌, arith, Bool, true, false, ◌≡◌, refl, subst, String, some, none, List,
  [], ◌∷◌, same, string_eq, ok, Option,
}
use distributed_chat_system.Messages.Table.{Faults, committed}
use distributed_chat_system.Files.Store.Beginning.{some-injective}
use distributed_chat_system.Gate.{Argon2, is_encoded_hash}
use distributed_chat_system.Gate.Accounts.{
  User, Accounts, logged_in, reg_user_transaction, check_pwd, update_pwd, set_password, find_email,
  find_uid,
}
use distributed_chat_system.Gate.Codes.{Try, answered, not_run, issued, guesses}
use distributed_chat_system.Gate.Codes.Guesses.{guesses-le}
use distributed_chat_system.Gate.Login.{check_pwd_keeps_reset}
use distributed_chat_system.Gate.Registration.{IsArgon2, check_pwd-reg_user_transaction}
use distributed_chat_system.Gate.Reset.{check_pwd-update_pwd}

-- A hash for one password only.
abbrev one_hash : Bool → Option String
one_hash true = some "$argon2id$1"
one_hash false = none

abbrev toy_argon : Argon2
toy_argon = record {
  pwhash = λ salt password. one_hash (same password "sesame");
  str_verify = λ h password. same password "sesame";
  str_needs_rehash = λ h. false;
  sha256_hex = λ password. password;
}

one_hash-encoded : (b : Bool) (h : String) → one_hash b ≡ some h → is_encoded_hash h ≡ true
unfolding is_encoded_hash
one_hash-encoded true h e = subst (λ (k : String). is_encoded_hash k ≡ true) (some-injective e) refl
one_hash-encoded false h e = cc

one_hash-true : (b : Bool) (h : String) → one_hash b ≡ some h → b ≡ true
one_hash-true true h e = refl
one_hash-true false h e = cc

toy_argon-IsArgon2 : IsArgon2 toy_argon
toy_argon-IsArgon2 = record {
  encodes = λ s p h e. one_hash-encoded (same p "sesame") h e;
  verifies = λ s p h e. one_hash-true (same p "sesame") h e;
  is_fresh = λ s p h e. refl;
}

abbrev working_table : Faults
working_table = record {
  connected = true;
  setup_throws = false;
  throws = λ i. false;
  commit = committed;
}

abbrev no_accounts : Accounts
no_accounts = record { last_uid = 1000; users = [] }

abbrev registered : Accounts
registered =
    (reg_user_transaction toy_argon same working_table 0 no_accounts "ann" "ann@example.org"
      "sesame" "icon.png").1

check_pwd-reg_user_transaction_example :
    check_pwd toy_argon same working_table 1 registered.users registered.users "ann@example.org"
      "sesame"
    ≡ (ok (logged_in 1001 "ann"), registered.users)
unfolding reg_user_transaction
check_pwd-reg_user_transaction_example =
    check_pwd-reg_user_transaction toy_argon toy_argon-IsArgon2 same working_table working_table 0 1
      no_accounts registered "ann" "ann@example.org" "sesame" "icon.png" 1001 refl refl refl refl

abbrev ann : User
ann = record {
  uid = 1001;
  name = "ann";
  email = "ann@example.org";
  pwd = "sesame";
  password_scheme = "legacy_client_sha256";
  nick = "ann";
  icon = "icon.png";
}

abbrev reset_users : List User
reset_users = set_password "$argon2id$1" ann ∷ []

check_pwd-update_pwd_example :
    check_pwd toy_argon same working_table 1 reset_users reset_users "ann@example.org" "sesame"
    ≡ (ok (logged_in 1001 "ann"), reset_users)
unfolding update_pwd find_email
check_pwd-update_pwd_example =
    check_pwd-update_pwd toy_argon toy_argon-IsArgon2 same working_table working_table 0 1
      (ann ∷ []) reset_users "ann" "ann@example.org" "sesame" ann refl refl refl refl refl

-- A login with the password that it had, while the account is reset.
check_pwd_keeps_reset_example :
    find_uid 1001
      (check_pwd toy_argon same working_table 1 (ann ∷ []) reset_users "ann@example.org" "sesame").1
    ≡ some (set_password "$argon2id$1" ann)
unfolding find_email find_uid
check_pwd_keeps_reset_example =
    check_pwd_keeps_reset toy_argon same working_table 1 (ann ∷ []) reset_users "ann@example.org"
      "sesame" ann (set_password "$argon2id$1" ann) refl refl (λ (e : "$argon2id$1" ≡ "sesame"). cc)

-- TTL rounds to the nearest second.
abbrev nearest_second : ℕ → ℕ
nearest_second ms = (ms + 500) / 1000

nearest_second-rounds : (ms : ℕ) → ms < 1000 * nearest_second ms + 1000
nearest_second-rounds ms = omega arith

-- Two tries are allowed, four are made, the last one with the code.
abbrev four_tries : List Try
four_tries =
    record { call = answered; now = 100000; submitted_code = "111111" }
    ∷ record { call = not_run; now = 110000; submitted_code = "222222" }
    ∷ record { call = answered; now = 120000; submitted_code = "333333" }
    ∷ record { call = answered; now = 299000; submitted_code = "123456" }
    ∷ []

guesses-le_example : guesses nearest_second 2 four_tries (issued "123456" 300000) ≤ 2
guesses-le_example =
    guesses-le nearest_second nearest_second-rounds 300000 2 four_tries "123456" (omega arith)
      (omega arith, (omega arith, (omega arith, (omega arith, tt))))

guesses_test : guesses nearest_second 2 four_tries (issued "123456" 300000) ≡ 2
unfolding guesses
guesses_test = refl

-- In the last second the counter may be gone before the code: a wrong try with 299.4 seconds left makes
-- a counter for 299, which a try at 299.7 seconds finds gone, and then comes the code.
abbrev late_tries : List Try
late_tries =
    record { call = answered; now = 600; submitted_code = "111111" }
    ∷ record { call = answered; now = 299700; submitted_code = "222222" }
    ∷ record { call = answered; now = 299800; submitted_code = "123456" }
    ∷ []

late_test : guesses nearest_second 2 late_tries (issued "123456" 300000) ≡ 3
unfolding guesses
late_test = refl
