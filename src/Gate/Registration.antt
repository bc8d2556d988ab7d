-- ===== src/Gate/Registration.antt =====
-- A registered account can log in: RegUserTransaction and CheckPwd together.
use distributed_chat_system.Prelude.{
  ℕ, ◌+◌, Bool, true, false, not, ◌||◌, ◌≡◌, refl, sym, subst, ap, ◌∙◌, inl, inr, String, Option,
  none, some, List, [], ◌∷◌, ◌++◌, is_some, same, Bool-cases, if◌then◌else◌, Result, ok, err,
  raise_if-ok, or_raise-ok, or_raise, ok-injective, string_eq,
}
use distributed_chat_system.Messages.Table.{
  Faults, CommitOutcome, committed, commit_refused, commit_reply_lost, commit_result,
}
use distributed_chat_system.Files.Store.Beginning.{some-injective, right_false}
use distributed_chat_system.Gate.{
  Argon2, Thrown, empty_password, hashing_failed, valid, is_encoded_hash, hash, verify,
  needs_rehash, verify_candidate, verify_credential,
}
use distributed_chat_system.Gate.Accounts.{
  User, Accounts, find_email, find_name, find_uid, new_user, insert_user, finish_registration,
  Registered, reg_user_transaction, logged_in, apply_upgrade, check_pwd,
}

-- What libsodium documents of crypto_pwhash_str: the encoding, that the password verifies, and that a
-- hash with the present parameters need not be made again.
pub record IsArgon2 (argon : Argon2) : Type 0 where
  pub encodes : (s : ℕ) (p h : String) → argon.pwhash s p ≡ some h → is_encoded_hash h ≡ true
  pub verifies : (s : ℕ) (p h : String) → argon.pwhash s p ≡ some h → argon.str_verify h p ≡ true
  pub is_fresh :
      (s : ℕ) (p h : String) → argon.pwhash s p ≡ some h → argon.str_needs_rehash h ≡ false

module _ (argon : Argon2) (is_argon : IsArgon2 argon) where
  pub verify_credential-fresh :
      (s s' : ℕ) (p h : String)
      → argon.pwhash s p ≡ some h
      → verify_credential argon s' p h "argon2id_raw" ≡ ok valid
  unfolding verify_credential verify_candidate verify needs_rehash
  verify_credential-fresh s s' p h made =
      rw (is_argon.encodes s p h made, is_argon.verifies s p h made, is_argon.is_fresh s p h made)
        refl

  pub hash-made : (s : ℕ) (p h : String) → hash argon s p ≡ ok h → argon.pwhash s p ≡ some h
  unfolding hash
  hash-made s p h e =
      or_raise-ok (argon.pwhash s p) hashing_failed
        (raise_if-ok (same p "") empty_password (or_raise (argon.pwhash s p) hashing_failed) e).1

find_email-append :
    (collate : String → String → Bool) (email : String) (users : List User) (u : User)
    → find_email collate email users ≡ none
    → collate u.email email ≡ true
    → find_email collate email (users ++ u ∷ []) ≡ some u
unfolding find_email
find_email-append collate email [] u absent same_email = rw same_email refl
find_email-append collate email (v ∷ users) u absent same_email =
    elim (Bool-cases (collate v.email email)) [
      | inl found ↦
          let present : some v ≡ none =
            subst (λ (b : Bool). (if b then some v else find_email collate email users) ≡ none)
              found absent in
          cc
      | inr other ↦
          let rest =
            subst (λ (b : Bool). (if b then some v else find_email collate email users) ≡ none)
              other absent in
          rw other (find_email-append collate email users u rest same_email)
    ]

is_some-false : {A : Type 0} (o : Option A) → is_some o ≡ false → o ≡ none
is_some-false none h = refl
is_some-false (some a) h = cc

passed :
    {A : Type 0} (b : Bool) {o : Option A} {x : A}
    → (if b then none else o) ≡ some x
    → (b ≡ false) × (o ≡ some x)
passed true e = cc
passed false e = (refl, e)

insert_user_lem :
    (collate : String → String → Bool) (f : Faults) (t t' : Accounts) (name email pwd icon : String)
    (uid : ℕ)
    → insert_user collate f t name email pwd icon ≡ some (uid, t')
    → (find_email collate email t.users ≡ none)
      × (t'.users ≡ t.users ++ new_user uid name email pwd icon ∷ [])
unfolding insert_user
insert_user_lem collate f t t' name email pwd icon uid e =
    let (new_email, e1) = passed (f.throws 0 || is_some (find_email collate email t.users)) e in
    let (new_name, e2) = passed (f.throws 1 || is_some (find_name collate name t.users)) e1 in
    let (new_uid, e3) =
      passed (f.throws 2 || f.throws 3 || f.throws 4 || is_some (find_uid (t.last_uid + 1) t.users))
        e2 in
    let inserted = some-injective e3 in
    (
      is_some-false (find_email collate email t.users)
          (right_false (f.throws 0) (is_some (find_email collate email t.users)) new_email),
      sym (ap (λ (z : ℕ × Accounts). z.1.users) inserted)
          ∙ ap (λ (k : ℕ). t.users ++ new_user k name email pwd icon ∷ [])
              (ap (λ (z : ℕ × Accounts). z.0) inserted),
    )

finish_registration_lem :
    (c : CommitOutcome) (t t' : Accounts) (inserted : Option (ℕ × Accounts)) (uid : ℕ)
    → finish_registration c t inserted ≡ (ok (some uid), t')
    → inserted ≡ some (uid, t')
unfolding finish_registration commit_result
finish_registration_lem c t t' none uid e = cc
finish_registration_lem committed t t' (some (k, new)) uid e =
    let told = some-injective (ok-injective (ap (λ (z : Registered). z.0) e)) in
    let left = ap (λ (z : Registered). z.1) e in cc
finish_registration_lem commit_refused t t' (some (k, new)) uid e =
    let told = ok-injective (ap (λ (z : Registered). z.0) e) in cc
finish_registration_lem commit_reply_lost t t' (some (k, new)) uid e =
    let told = ok-injective (ap (λ (z : Registered). z.0) e) in cc

abbrev answered : ℕ → Accounts → Registered
answered uid t' = (ok (some uid), t')

when_connected :
    (b : Bool) (t t' : Accounts) (uid : ℕ) (m : Registered)
    → (if not b then (ok none, t) else m) ≡ answered uid t'
    → m ≡ answered uid t'
when_connected true t t' uid m e = e
when_connected false t t' uid m e = let told = ok-injective (ap (λ (z : Registered). z.0) e) in cc

after_hash :
    (collate : String → String → Bool) (f : Faults) (t t' : Accounts) (name email icon : String)
    (uid : ℕ) (hashed : Result Thrown String)
    → elim hashed [
      | err x ↦ (err x, t)
      | ok h ↦ finish_registration f.commit t (insert_user collate f t name email h icon)
    ]
      ≡ answered uid t'
    → (h : String) × (hashed ≡ ok h) × (insert_user collate f t name email h icon ≡ some (uid, t'))
after_hash collate f t t' name email icon uid (err x) e =
    let told = ap (λ (z : Registered). z.0) e in cc
after_hash collate f t t' name email icon uid (ok h) e = (
  h,
  refl,
  finish_registration_lem f.commit t t' (insert_user collate f t name email h icon) uid e,
)

registered_lem :
    (argon : Argon2) (collate : String → String → Bool) (f : Faults) (salt : ℕ) (t t' : Accounts)
    (name email pwd icon : String) (uid : ℕ)
    → reg_user_transaction argon collate f salt t name email pwd icon ≡ (ok (some uid), t')
    → (h : String) × (hash argon salt pwd ≡ ok h)
      × (insert_user collate f t name email h icon ≡ some (uid, t'))
unfolding reg_user_transaction
registered_lem argon collate f salt t t' name email pwd icon uid e =
    after_hash collate f t t' name email icon uid (hash argon salt pwd) (
      when_connected f.connected t t' uid
        (elim (hash argon salt pwd) [
          | err x ↦ (err x, t)
          | ok h ↦ finish_registration f.commit t (insert_user collate f t name email h icon)
        ])
        e)

module _ (argon : Argon2) (is_argon : IsArgon2 argon) (collate : String → String → Bool) where
  -- A registered account can log in: where `reg_user_transaction` has answered a uid, a later login
  -- on a connection that works, with the same email and password, finds this uid and this name and
  -- leaves the table as it is, provided that the collation finds the email equal to itself.
  pub check_pwd-reg_user_transaction :
      (f g : Faults) (salt salt' : ℕ) (t t' : Accounts) (name email pwd icon : String) (uid : ℕ)
      → reg_user_transaction argon collate f salt t name email pwd icon ≡ (ok (some uid), t')
      → collate email email ≡ true
      → g.connected ≡ true
      → g.throws 0 ≡ false
      → check_pwd argon collate g salt' t'.users t'.users email pwd
        ≡ (ok (logged_in uid name), t'.users)
  unfolding check_pwd apply_upgrade
  check_pwd-reg_user_transaction f g salt salt' t t' name email pwd icon uid e same_email works
        runs =
      let (h, hashed, inserted) =
        registered_lem argon collate f salt t t' name email pwd icon uid e in
      let (absent, users) = insert_user_lem collate f t t' name email h icon uid inserted in
      let found =
        find_email-append collate email t.users (new_user uid name email h icon) absent
          same_email in
      let checked =
        verify_credential-fresh argon is_argon salt salt' pwd h
          (hash-made argon is_argon salt pwd h hashed) in
      rw (works, runs, ap (find_email collate email) users ∙ found, checked) refl
