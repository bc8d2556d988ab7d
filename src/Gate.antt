-- ===== src/Gate.antt =====
-- The gate server's credentials: common/PasswordHasher.cpp and common/PasswordUpgradeGuard.h, with the
-- accounts of servers/gate/storage/MysqlDao.cpp in the child module Accounts. libsodium is a parameter
-- (`Argon2`). A random salt is the number that a hash is made with.
pub mod Accounts
pub mod Login
pub mod Registration
pub mod Reset
pub mod Codes
use distributed_chat_system.Prelude.{
  ℕ, Bool, true, false, not, ◌||◌, ◌&&◌, String, Option, none, some, List, [], ◌∷◌, take, list_beq,
  same, if◌then◌else◌, Result, ok, err, ◌>>=◌, ◌>>◌, raise_if, or_raise, nat_eq, string_eq,
}
use distributed_chat_system.Files.Store.{codes}

-- crypto_pwhash_str_alg with a salt (none where it fails), crypto_pwhash_str_verify of an encoded
-- hash and a password, crypto_pwhash_str_needs_rehash, and crypto_hash_sha256 in hexadecimal.
pub record Argon2 : Type 0 where
  pub pwhash : ℕ → String → Option String
  pub str_verify : String → String → Bool
  pub str_needs_rehash : String → Bool
  pub sha256_hex : String → String

-- An exception that is no SQLException.
pub data Thrown : Type 0 where
  empty_password hashing_failed : Thrown

-- "$argon2id$"
abbrev pub encoded_prefix : List ℕ
encoded_prefix = 36 ∷ 97 ∷ 114 ∷ 103 ∷ 111 ∷ 110 ∷ 50 ∷ 105 ∷ 100 ∷ 36 ∷ []

unfoldable pub is_encoded_hash : String → Bool
is_encoded_hash value = list_beq (take 10 (codes value)) encoded_prefix

-- PasswordVerificationResult: not valid, valid, or valid with the upgraded hash.
pub data Verification : Type 0 where
  invalid valid : Verification
  upgrade : String → Verification

module _ (argon : Argon2) where
  unfoldable pub hash : ℕ → String → Result Thrown String
  hash salt password = do
    raise_if (same password "") empty_password
    or_raise (argon.pwhash salt password) hashing_failed

  unfoldable pub verify : String → String → Bool
  unfolding is_encoded_hash
  verify password encoded_hash =
      is_encoded_hash encoded_hash && argon.str_verify encoded_hash password

  unfoldable pub needs_rehash : String → Bool
  unfolding is_encoded_hash
  needs_rehash encoded_hash =
      not (is_encoded_hash encoded_hash) || argon.str_needs_rehash encoded_hash

  -- Behind the check of the scheme.
  unfoldable pub verify_candidate : ℕ → String → String → Bool → Result Thrown Verification
  unfolding hash verify needs_rehash
  verify_candidate salt raw_password stored_hash legacy_scheme =
      let candidate = if legacy_scheme then argon.sha256_hex raw_password else raw_password in
      let legacy_plaintext = not (is_encoded_hash stored_hash) in
      if not (if legacy_plaintext then same candidate stored_hash else verify candidate stored_hash)
      then ok invalid
      else (if legacy_plaintext || legacy_scheme || needs_rehash stored_hash
          then hash salt raw_password >>= (λ upgraded. ok (upgrade upgraded))
          else ok valid)

  unfoldable pub verify_credential : ℕ → String → String → String → Result Thrown Verification
  unfolding verify_candidate
  verify_credential salt raw_password stored_hash password_scheme =
      if not (same password_scheme "argon2id_raw")
        && not (same password_scheme "legacy_client_sha256")
      then ok invalid
      else verify_candidate salt raw_password stored_hash
          (same password_scheme "legacy_client_sha256")
