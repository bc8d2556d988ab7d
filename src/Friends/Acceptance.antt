-- ===== src/Friends/Acceptance.antt =====
-- The acceptance of a friend application is all or nothing, and is done once.
use distributed_chat_system.Prelude.{
  int_eq_iff, ℕ, ◌≡◌, ◌⊎◌, inl, inr, refl, ap, ◌∙◌, ℤ, String, Bool, true, false, not, ◌||◌, ◌&&◌,
  none, some, List, [], ◌∷◌, ◌==◌, int_eq, arith, Bool-cases, ==_iff, if◌then◌else◌,
}
use distributed_chat_system.Messages.Table.{
  Faults, CommitOutcome, committed, commit_refused, commit_reply_lost,
}
use distributed_chat_system.Friends.{
  FriendAcceptanceResult, success, pending_missing, storage_error, Application, Tables,
  insert_friend, is_pending, pending_count, accept_pending, commit_acceptance, execute_acceptance,
  or_error, add_friend, is_negative,
}

-- The tables after the three writes.
abbrev pub accepted : (ℤ → Bool) → Tables → ℤ → ℤ → String → Tables
accepted is_user old accepter applicant back = record {
  friends =
      (insert_friend is_user applicant accepter ""
        (insert_friend is_user accepter applicant back old.friends).1).1;
  applications = accept_pending applicant accepter old.applications;
}

-- All that the acceptance can come to: everything is written, or nothing, and a success says that
-- it is everything.
data Ending (n : ℕ) (old new : Tables) : FriendAcceptanceResult × Tables → Type 0 where
  done : n ≡ 1 → Ending n old new (success, new)
  missing : (n ≡ 1 → ⊥) → Ending n old new (pending_missing, old)
  failed : Ending n old new (storage_error, old)
  reply_lost : n ≡ 1 → Ending n old new (storage_error, new)

commit-Ending :
    (c : CommitOutcome) (n : ℕ) (old new : Tables)
    → n ≡ 1
    → Ending n old new (or_error (commit_acceptance c old new))
unfolding commit_acceptance or_error
commit-Ending committed n old new e = done e
commit-Ending commit_refused n old new e = failed
commit-Ending commit_reply_lost n old new e = reply_lost e

-- The tests of the transaction, one after the other.
branches-Ending :
    (t0 n0 t1 n1 t2 : Bool) (n : ℕ) (c : CommitOutcome) (old new : Tables)
    → Ending n old new (
        or_error (
          if t0
          then (none, old)
          else (if n0
              then (some storage_error, old)
              else (if t1
                  then (none, old)
                  else (if n1
                      then (some storage_error, old)
                      else (if t2
                          then (none, old)
                          else (if not (n == 1)
                              then (some pending_missing, old)
                              else commit_acceptance c old new)))))))
unfolding or_error
branches-Ending true n0 t1 n1 t2 n c old new = failed
branches-Ending false true t1 n1 t2 n c old new = failed
branches-Ending false false true n1 t2 n c old new = failed
branches-Ending false false false true t2 n c old new = failed
branches-Ending false false false false true n c old new = failed
branches-Ending false false false false false n c old new = elim (Bool-cases (n == 1)) [
  | inl e ↦ rw e (commit-Ending c n old new ((==_iff n 1).0 e))
  | inr e ↦ rw e (missing (λ h. ground (arith, e, h)))
]

add_friend-Ending :
    (is_user : ℤ → Bool) (f : Faults) (old : Tables) (accepter applicant : ℤ) (back : String)
    → Ending
        (pending_count applicant accepter old.applications)
        old
        (accepted is_user old accepter applicant back)
        (add_friend is_user f old accepter applicant back)
unfolding add_friend execute_acceptance
add_friend-Ending is_user f old accepter applicant back = elim (Bool-cases (not f.connected)) [
  | inl e ↦ rw e failed
  | inr e ↦ rw e (
      branches-Ending (f.setup_throws || f.throws 0)
        (is_negative (insert_friend is_user accepter applicant back old.friends).0) (f.throws 1)
        (is_negative
          (insert_friend is_user applicant accepter ""
            (insert_friend is_user accepter applicant back old.friends).1).0)
        (f.throws 2) (pending_count applicant accepter old.applications) f.commit old
        (accepted is_user old accepter applicant back))
]

Ending-success :
    (n : ℕ) (old new : Tables) (r : FriendAcceptanceResult × Tables)
    → Ending n old new r
    → r.0 ≡ success
    → (n ≡ 1) × (r.1 ≡ new)
Ending-success n old new _ (done e) h = (e, refl)
Ending-success n old new _ (missing m) h = ground arith
Ending-success n old new _ failed h = ground arith
Ending-success n old new _ (reply_lost e) h = ground arith

Ending-tables :
    (n : ℕ) (old new : Tables) (r : FriendAcceptanceResult × Tables)
    → Ending n old new r
    → (r.1 ≡ old) ⊎ ((n ≡ 1) × (r.1 ≡ new))
Ending-tables n old new _ (done e) = inr (e, refl)
Ending-tables n old new _ (missing m) = inl refl
Ending-tables n old new _ failed = inl refl
Ending-tables n old new _ (reply_lost e) = inr (e, refl)

-- Applications: after the update none is pending.
and3_false : (a b : Bool) → (a && b && false) ≡ false
and3_false true true = refl
and3_false true false = refl
and3_false false b = refl

pub accept_pending-none :
    (applicant accepter : ℤ) (list : List Application)
    → pending_count applicant accepter (accept_pending applicant accepter list) ≡ 0
unfolding pending_count accept_pending
accept_pending-none applicant accepter [] = refl
accept_pending-none applicant accepter (a ∷ rest) =
    elim (Bool-cases (is_pending applicant accepter a)) [
      | inl e ↦ rw e (
          rw (and3_false (int_eq a.from_uid applicant) (int_eq a.to_uid accepter))
            (accept_pending-none applicant accepter rest))
      | inr e ↦ rw e (rw e (accept_pending-none applicant accepter rest))
    ]

accept_pending_other :
    (applicant accepter x y : ℤ) (list : List Application)
    → (int_eq x applicant && int_eq y accepter) ≡ false
    → pending_count x y (accept_pending applicant accepter list) ≡ pending_count x y list
unfolding pending_count accept_pending
accept_pending_other applicant accepter x y [] n = refl
accept_pending_other applicant accepter x y (a ∷ rest) n = ground (
  arith,
  accept_pending_other applicant accepter x y rest n,
  int_eq_iff a.from_uid applicant,
  int_eq_iff a.to_uid accepter,
  int_eq_iff a.from_uid x,
  int_eq_iff a.to_uid y,
  int_eq_iff x applicant,
  int_eq_iff y accepter,
)

-- When the acceptance succeeds, exactly one application of the applicant to the accepter was
-- pending, none is now, and for every other pair of users as many are pending as before.
pub add_friend_once :
    (is_user : ℤ → Bool) (f : Faults) (old : Tables) (accepter applicant x y : ℤ) (back : String)
    → (int_eq x applicant && int_eq y accepter) ≡ false
    → (add_friend is_user f old accepter applicant back).0 ≡ success
    → (pending_count applicant accepter old.applications ≡ 1)
      × (pending_count applicant accepter
            (add_friend is_user f old accepter applicant back).1.applications
          ≡ 0)
      × (pending_count x y (add_friend is_user f old accepter applicant back).1.applications
          ≡ pending_count x y old.applications)
add_friend_once is_user f old accepter applicant x y back n e =
    let (one, table) =
      Ending-success _ old _ _ (add_friend-Ending is_user f old accepter applicant back) e in
    (
      one,
      ap (λ t. pending_count applicant accepter t.applications) table
          ∙ accept_pending-none applicant accepter old.applications,
      ap (λ t. pending_count x y t.applications) table
          ∙ accept_pending_other applicant accepter x y old.applications n,
    )

-- Whatever the database does, the tables after AddFriend are those before it, or those with all
-- three writes, and then an application was pending.
pub add_friend_atomic :
    (is_user : ℤ → Bool) (f : Faults) (old : Tables) (accepter applicant : ℤ) (back : String)
    → ((add_friend is_user f old accepter applicant back).1 ≡ old)
      ⊎ ((pending_count applicant accepter old.applications ≡ 1)
          × ((add_friend is_user f old accepter applicant back).1
              ≡ accepted is_user old accepter applicant back))
add_friend_atomic is_user f old accepter applicant back =
    Ending-tables _ old _ _ (add_friend-Ending is_user f old accepter applicant back)

-- What a success leaves.
pub add_friend_tables :
    (is_user : ℤ → Bool) (f : Faults) (old : Tables) (accepter applicant : ℤ) (back : String)
    → (add_friend is_user f old accepter applicant back).0 ≡ success
    → (add_friend is_user f old accepter applicant back).1
      ≡ accepted is_user old accepter applicant back
add_friend_tables is_user f old accepter applicant back e =
    (Ending-success _ old _ _ (add_friend-Ending is_user f old accepter applicant back) e).1
