-- ===== src/Friends/Applications.antt =====
-- servers/chat/storage/MysqlDao.cpp: the operations on friend_apply besides the acceptance, and
-- AreFriends. One statement commits by itself.
use distributed_chat_system.Prelude.{
  ℕ, ◌+◌, ◌≡◌, refl, ap, ◌⊎◌, ◌∙◌, inl, inr, ℤ, Bool, true, false, not, ◌||◌, ◌&&◌, none, some,
  List, [], ◌∷◌, ◌++◌, ◌==◌, leb, int_eq, int_eq_iff, arith, Bool-cases, if◌then◌else◌,
}
use distributed_chat_system.Messages.Table.{
  Faults, CommitOutcome, committed, commit_refused, commit_reply_lost, commit_result,
}
use distributed_chat_system.Friends.{
  Application, Tables, is_pending, pending_count, accept_pending, check_friend_relation,
}
use distributed_chat_system.Friends.Acceptance.{accept_pending-none}

abbrev pub is_between : ℤ → ℤ → Application → Bool
is_between from to a = int_eq a.from_uid from && int_eq a.to_uid to

-- The unique key of the table.
unfoldable pub has_application : ℤ → ℤ → List Application → Bool
has_application from to [] = false
has_application from to (a ∷ rest) = is_between from to a || has_application from to rest

abbrev pub new_application : ℤ → ℤ → Application
new_application from to = record { from_uid = from; to_uid = to; status = 0 }

-- INSERT ... ON DUPLICATE KEY UPDATE from_uid = from_uid, to_uid = to_uid
unfoldable pub insert_application : ℤ → ℤ → List Application → List Application
unfolding has_application
insert_application from to rows =
    if has_application from to rows then rows else rows ++ new_application from to ∷ []

-- The insert throws where one of the two is no user.
unfoldable pub add_friend_apply :
    (ℤ → Bool) → Faults → List Application → ℤ → ℤ → Bool × List Application
unfolding insert_application
add_friend_apply is_user f rows from to =
    if not f.connected || f.throws 0 || not (is_user from) || not (is_user to)
    then (false, rows)
    else commit_result f.commit rows (insert_application from to rows)

unfoldable pub auth_friend_apply : Faults → List Application → ℤ → ℤ → Bool × List Application
auth_friend_apply f rows from to =
    if not f.connected || f.throws 0
    then (false, rows)
    else (let (told, rows') = commit_result f.commit rows (accept_pending to from rows) in
        (told && (pending_count to from rows == 1), rows'))

unfoldable pub has_pending_friend_apply : Faults → List Application → ℤ → ℤ → Bool
has_pending_friend_apply f rows from to =
    if not f.connected || f.throws 0 then false else leb 1 (pending_count from to rows)

unfoldable pub are_friends : Faults → Tables → ℤ → ℤ → Bool
are_friends f tables first second = elim (check_friend_relation f tables first second) [
  | none ↦ false
  | some answer ↦ answer
]

has_application-accept_pending :
    (from to a b : ℤ) (rows : List Application)
    → has_application from to (accept_pending a b rows) ≡ has_application from to rows
unfolding has_application accept_pending
has_application-accept_pending from to a b [] = refl
has_application-accept_pending from to a b (x ∷ rest) = elim (Bool-cases (is_pending a b x)) [
  | inl e ↦
      rw e (ap (◌||◌ (is_between from to x)) (has_application-accept_pending from to a b rest))
  | inr e ↦
      rw e (ap (◌||◌ (is_between from to x)) (has_application-accept_pending from to a b rest))
]

pending-has_application :
    (from to : ℤ) (rows : List Application)
    → pending_count from to rows ≡ 1
    → has_application from to rows ≡ true
unfolding has_application pending_count
pending-has_application from to [] e = ground arith
pending-has_application from to (x ∷ rest) e = ground (arith, pending-has_application from to rest)

pending_count-append :
    (from to : ℤ) (rows : List Application) (x : Application)
    → pending_count from to (rows ++ x ∷ [])
      ≡ pending_count from to rows + pending_count from to (x ∷ [])
unfolding pending_count
pending_count-append from to [] x = omega arith
pending_count-append from to (y ∷ rest) x = elim (Bool-cases (is_pending from to y)) [
  | inl e ↦ rw e (omega (arith, pending_count-append from to rest x))
  | inr e ↦ rw e (pending_count-append from to rest x)
]

absent-pending_count :
    (from to : ℤ) (rows : List Application)
    → has_application from to rows ≡ false
    → pending_count from to rows ≡ 0
unfolding has_application pending_count
absent-pending_count from to [] e = refl
absent-pending_count from to (x ∷ rest) e = ground (arith, absent-pending_count from to rest)

new_counts : (from to : ℤ) → pending_count from to (new_application from to ∷ []) ≡ 1
unfolding pending_count
new_counts from to = rw ((int_eq_iff from from).1 refl, (int_eq_iff to to).1 refl) refl

-- An insert makes an application pending where there was none, and leaves one that is there.
insert_application-pending_count :
    (from to : ℤ) (rows : List Application)
    → pending_count from to (insert_application from to rows)
      ≡ (if has_application from to rows then pending_count from to rows else 1)
unfolding insert_application
insert_application-pending_count from to rows = elim (Bool-cases (has_application from to rows)) [
  | inl e ↦ rw e refl
  | inr e ↦ rw e (
      omega (
        arith,
        pending_count-append from to rows (new_application from to),
        absent-pending_count from to rows e,
        new_counts from to,
      ))
]

told-table :
    (c : CommitOutcome) (old new : List Application)
    → (commit_result c old new).0 ≡ true
    → (commit_result c old new).1 ≡ new
unfolding commit_result
told-table committed old new e = refl
told-table commit_refused old new e = ground arith
told-table commit_reply_lost old new e = ground arith

leb_if : (b : Bool) (n : ℕ) → leb 1 (if b then n else 1) ≡ (if b then leb 1 n else true)
leb_if true n = refl
leb_if false n = refl

either-table :
    (c : CommitOutcome) (old new : List Application)
    → ((commit_result c old new).1 ≡ old) ⊎ ((commit_result c old new).1 ≡ new)
unfolding commit_result
either-table committed old new = inr refl
either-table commit_refused old new = inl refl
either-table commit_reply_lost old new = inr refl

applied-table :
    (is_user : ℤ → Bool) (f : Faults) (rows : List Application) (from to : ℤ)
    → (add_friend_apply is_user f rows from to).0 ≡ true
    → (add_friend_apply is_user f rows from to).1 ≡ insert_application from to rows
unfolding add_friend_apply
applied-table is_user f rows from to e =
    ground (arith, told-table f.commit rows (insert_application from to rows))

applied-either :
    (is_user : ℤ → Bool) (f : Faults) (rows : List Application) (from to : ℤ)
    → ((add_friend_apply is_user f rows from to).1 ≡ rows)
      ⊎ ((add_friend_apply is_user f rows from to).1 ≡ insert_application from to rows)
unfolding add_friend_apply
applied-either is_user f rows from to =
    ground (arith, either-table f.commit rows (insert_application from to rows))

authorized-table :
    (f : Faults) (rows : List Application) (from to : ℤ)
    → (auth_friend_apply f rows from to).0 ≡ true
    → ((auth_friend_apply f rows from to).1 ≡ accept_pending to from rows)
      × (pending_count to from rows ≡ 1)
unfolding auth_friend_apply
authorized-table f rows from to e =
    ground (arith, told-table f.commit rows (accept_pending to from rows))

-- AddFriendApply, reported as done: whether the application is pending afterwards is as before where
-- there was one from this user to the other, and where there was none, one is pending, which
-- HasPendingFriendApply sees, given a connection and a statement that does not throw.
pub add_friend_apply_pending :
    (is_user : ℤ → Bool) (f g : Faults) (rows : List Application) (from to : ℤ)
    → (add_friend_apply is_user f rows from to).0 ≡ true
    → (not g.connected || g.throws 0) ≡ false
    → has_pending_friend_apply g (add_friend_apply is_user f rows from to).1 from to
      ≡ (if has_application from to rows then has_pending_friend_apply g rows from to else true)
unfolding has_pending_friend_apply
add_friend_apply_pending is_user f g rows from to e h = rw h (
    ap (λ v. leb 1 (pending_count from to v)) (applied-table is_user f rows from to e)
    ∙ ap (leb 1) (insert_application-pending_count from to rows)
    ∙ leb_if (has_application from to rows) (pending_count from to rows))

-- An application that AuthFriendApply has accepted is not pending, and the applicant cannot make it
-- pending by applying again, whatever the database does in either.
pub auth_friend_apply_closed :
    (is_user : ℤ → Bool) (f g : Faults) (rows : List Application) (from to : ℤ)
    → (auth_friend_apply f rows from to).0 ≡ true
    → (pending_count to from (auth_friend_apply f rows from to).1 ≡ 0)
      × (pending_count to from
            (add_friend_apply is_user g (auth_friend_apply f rows from to).1 to from).1
          ≡ 0)
auth_friend_apply_closed is_user f g rows from to e =
    let (table, one) = authorized-table f rows from to e in
    let closed = ap (pending_count to from) table ∙ accept_pending-none to from rows in
    let present =
      ap (has_application to from) table
      ∙ has_application-accept_pending to from to from rows
      ∙ pending-has_application to from rows one in
    (
      closed,
      elim (applied-either is_user g (auth_friend_apply f rows from to).1 to from) [
        | inl k ↦ ap (pending_count to from) k ∙ closed
        | inr k ↦
            ap (pending_count to from) k
            ∙ insert_application-pending_count to from (auth_friend_apply f rows from to).1
            ∙ rw present closed
      ],
    )
