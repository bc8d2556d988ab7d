-- ===== src/Gate/Reset.antt =====
-- A reset password is the one that logs in: UpdatePwd and CheckPwd together.
use distributed_chat_system.Prelude.{
  ℕ, Bool, true, false, not, ◌≡◌, refl, sym, subst, ap, ◌∙◌, inl, inr, String, some, List, [], ◌∷◌,
  Bool-cases, if◌then◌else◌, Result, ok, err, ok-injective,
}
use distributed_chat_system.Messages.Table.{
  Faults, CommitOutcome, committed, commit_refused, commit_reply_lost, commit_result,
}
use distributed_chat_system.Files.Store.Beginning.{some-injective}
use distributed_chat_system.Gate.{Argon2, Thrown, hash}
use distributed_chat_system.Gate.Accounts.{
  User, find_email, update_users, set_password, logged_in, apply_upgrade, check_pwd, update_pwd,
}
use distributed_chat_system.Gate.Registration.{IsArgon2, verify_credential-fresh, hash-made}

find_email-update_users :
    (collate : String → String → Bool) (p : User → Bool) (pwd email : String) (users : List User)
    (u : User)
    → find_email collate email users ≡ some u
    → p u ≡ true
    → find_email collate email (update_users p (set_password pwd) users) ≡ some (set_password pwd u)
unfolding find_email update_users
find_email-update_users collate p pwd email [] u found h = cc
find_email-update_users collate p pwd email (v ∷ users) u found h =
    elim (Bool-cases (collate v.email email)) [
      | inl matches ↦
          let is_u = some-injective (
            subst (λ (b : Bool). (if b then some v else find_email collate email users) ≡ some u)
              matches found) in
          rw (ap p is_u ∙ h, find_email, matches)
            (ap (λ (w : User). some (set_password pwd w)) is_u)
      | inr other ↦
          let later =
            subst (λ (b : Bool). (if b then some v else find_email collate email users) ≡ some u)
              other found in
          let rest = find_email-update_users collate p pwd email users u later h in
          elim (Bool-cases (p v)) [
            | inl updated ↦ rw (updated, find_email, other) rest
            | inr kept ↦ rw (kept, find_email, other) rest
          ]
    ]

abbrev Updated : Type 0
Updated = Result Thrown Bool × List User

abbrev finish_update : CommitOutcome → List User → List User → Updated
unfolding commit_result
finish_update c users new = let (told, users') = commit_result c users new in (ok told, users')

abbrev done : List User → Updated
done users = (ok true, users)

finish_update_lem :
    (c : CommitOutcome) (users new users' : List User)
    → finish_update c users new ≡ done users'
    → users' ≡ new
unfolding commit_result
finish_update_lem committed users new users' e = sym (ap (λ (z : Updated). z.1) e)
finish_update_lem commit_refused users new users' e =
    let told = ok-injective (ap (λ (z : Updated). z.0) e) in cc
finish_update_lem commit_reply_lost users new users' e =
    let told = ok-injective (ap (λ (z : Updated). z.0) e) in cc

abbrev by_name : (String → String → Bool) → String → User → Bool
by_name collate name u = collate u.name name

update_steps :
    (collate : String → String → Bool) (c : CommitOutcome) (users users' : List User)
    (name : String) (connected : Bool) (hashed : Result Thrown String)
    → (if not connected then (ok false, users) else elim hashed [
      | err x ↦ (err x, users)
      | ok h ↦ finish_update c users (update_users (by_name collate name) (set_password h) users)
    ])
      ≡ done users'
    → (h : String) × (hashed ≡ ok h)
      × (users' ≡ update_users (by_name collate name) (set_password h) users)
update_steps collate c users users' name false hashed e =
    let told = ok-injective (ap (λ (z : Updated). z.0) e) in cc
update_steps collate c users users' name true (err x) e =
    let told = ap (λ (z : Updated). z.0) e in cc
update_steps collate c users users' name true (ok h) e = (
  h,
  refl,
  finish_update_lem c users (update_users (by_name collate name) (set_password h) users) users' e,
)

update_pwd_lem :
    (argon : Argon2) (collate : String → String → Bool) (f : Faults) (salt : ℕ)
    (users users' : List User) (name newpwd : String)
    → update_pwd argon collate f salt users name newpwd ≡ done users'
    → (h : String) × (hash argon salt newpwd ≡ ok h)
      × (users' ≡ update_users (by_name collate name) (set_password h) users)
unfolding update_pwd
update_pwd_lem argon collate f salt users users' name newpwd e =
    update_steps collate f.commit users users' name f.connected (hash argon salt newpwd) e

module _ (argon : Argon2) (is_argon : IsArgon2 argon) (collate : String → String → Bool) where
  -- A reset password is the one that logs in: where `update_pwd` has answered true, a later login on
  -- a connection that works, with the new password and the email of an account that has the name,
  -- finds this account and leaves the table as it is.
  pub check_pwd-update_pwd :
      (f g : Faults) (salt salt' : ℕ) (users users' : List User) (name email newpwd : String)
      (u : User)
      → update_pwd argon collate f salt users name newpwd ≡ (ok true, users')
      → find_email collate email users ≡ some u
      → collate u.name name ≡ true
      → g.connected ≡ true
      → g.throws 0 ≡ false
      → check_pwd argon collate g salt' users' users' email newpwd
        ≡ (ok (logged_in u.uid u.name), users')
  unfolding check_pwd apply_upgrade
  check_pwd-update_pwd f g salt salt' users users' name email newpwd u e present named works runs =
      let (h, hashed, updated) = update_pwd_lem argon collate f salt users users' name newpwd e in
      let found =
        find_email-update_users collate (by_name collate name) h email users u present named in
      let checked =
        verify_credential-fresh argon is_argon salt salt' newpwd h
          (hash-made argon is_argon salt newpwd h hashed) in
      rw (works, runs, ap (find_email collate email) updated ∙ found, checked) refl
