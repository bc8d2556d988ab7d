-- ===== src/Gate/Login.antt =====
-- A registered account can log in, and a login overwrites no password that was reset meanwhile.
use distributed_chat_system.Prelude.{
  ℕ, Bool, true, false, not, ◌||◌, ◌≡◌, ◌≢◌, refl, subst, ap, ◌∙◌, inl, inr, ◌⊎◌, String, some,
  List, [], ◌∷◌, ◌==◌, arith, Bool-cases, Result-cases, if◌then◌else◌, string_eq,
}
use distributed_chat_system.Messages.Table.{
  Faults, CommitOutcome, committed, commit_refused, commit_reply_lost, commit_result,
}
use distributed_chat_system.Files.Store.Beginning.{some-injective}
use distributed_chat_system.Gate.{
  Argon2, Verification, invalid, valid, upgrade, is_encoded_hash, verify_credential,
}
use distributed_chat_system.Gate.Accounts.{
  User, find_email, find_uid, update_users, set_password, is_current, apply_upgrade, check_pwd,
}

-- What libsodium documents of crypto_pwhash_str: the encoding, that the password verifies, and that a
-- hash with the present parameters need not be made again.
pub record IsArgon2 (argon : Argon2) : Type 0 where
  pub encodes : (s : ℕ) (p h : String) → argon.pwhash s p ≡ some h → is_encoded_hash h ≡ true
  pub verifies : (s : ℕ) (p h : String) → argon.pwhash s p ≡ some h → argon.str_verify h p ≡ true
  pub is_fresh :
      (s : ℕ) (p h : String) → argon.pwhash s p ≡ some h → argon.str_needs_rehash h ≡ false

outcome_cases :
    (c : CommitOutcome) → (c ≡ committed) ⊎ ((c ≡ commit_refused) ⊎ (c ≡ commit_reply_lost))
outcome_cases committed = inl refl
outcome_cases commit_refused = inr (inl refl)
outcome_cases commit_reply_lost = inr (inr refl)

update_users_other :
    (p : User → Bool) (pwd : String) (uid : ℕ) (users : List User) (r : User)
    → p r ≡ false
    → find_uid uid users ≡ some r
    → find_uid uid (update_users p (set_password pwd) users) ≡ some r
unfolding find_uid update_users
update_users_other p pwd uid [] r h e = e
update_users_other p pwd uid (u ∷ users) r h e = elim (Bool-cases (u.uid == uid)) [
  | inl same_uid ↦
      let e' : some u ≡ some r =
        subst (λ (b : Bool). (if b then some u else find_uid uid users) ≡ some r) same_uid e in
      let is_r : u ≡ r = some-injective e' in rw (ap p is_r ∙ h, find_uid, same_uid) e'
  | inr differs ↦
      let e' : find_uid uid users ≡ some r =
        subst (λ (b : Bool). (if b then some u else find_uid uid users) ≡ some r) differs e in
      let rest = update_users_other p pwd uid users r h e' in
      elim (Bool-cases (p u)) [
        | inl p_u ↦ rw (p_u, find_uid, differs) rest
        | inr not_p ↦ rw (not_p, find_uid, differs) rest
      ]
]

-- The row that a login has read is not current once another password is in it.
is_current-false : (old r : User) → (r.pwd ≢ old.pwd) → is_current old r ≡ false
is_current-false old r differs = ground (arith, string_eq.beq_iff r.pwd old.pwd)

apply_upgrade_other :
    (f : Faults) (old : User) (v : Verification) (users : List User) (r : User)
    → is_current old r ≡ false
    → find_uid old.uid users ≡ some r
    → find_uid old.uid (apply_upgrade f old v users).1 ≡ some r
unfolding apply_upgrade commit_result
apply_upgrade_other f old invalid users r h e = e
apply_upgrade_other f old valid users r h e = e
apply_upgrade_other f old (upgrade upgraded) users r h e = elim (outcome_cases f.commit) [
  | inl is_committed ↦
      rw is_committed (update_users_other (is_current old) upgraded old.uid users r h e)
  | inr (inl is_refused) ↦ rw is_refused e
  | inr (inr is_lost) ↦
      rw is_lost (update_users_other (is_current old) upgraded old.uid users r h e)
]

module _ (argon : Argon2) (collate : String → String → Bool) (f : Faults) (salt : ℕ)
    (before users : List User) (email pwd : String) where
  -- A login overwrites no other password: where the account that the login has read at its query
  -- has another password at the update, its row is left as it is, whatever the submitted password,
  -- the answer of the login and the faults of the database.
  pub check_pwd_keeps_reset :
      (old r : User)
      → find_email collate email before ≡ some old
      → find_uid old.uid users ≡ some r
      → (r.pwd ≢ old.pwd)
      → find_uid old.uid (check_pwd argon collate f salt before users email pwd).1 ≡ some r
  unfolding check_pwd
  check_pwd_keeps_reset old r read now differs = elim (Bool-cases (not f.connected || f.throws 0)) [
    | inl fails ↦ rw fails now
    | inr works ↦
        elim (Result-cases (verify_credential argon salt pwd old.pwd old.password_scheme)) [
          | inl (e, thrown) ↦ rw (works, read, thrown) now
          | inr (v, verified) ↦
              rw (works, read, verified)
                (apply_upgrade_other f old v users r (is_current-false old r differs) now)
        ]
  ]
