-- ===== src/Friends/Relation.antt =====
-- After an accepted application the two are friends in both directions, for CheckFriendRelation.
use distributed_chat_system.Prelude.{
  ℕ, ◌+◌, ◌≤◌, ◌≡◌, ◌≢◌, ◌⊎◌, inl, inr, refl, ap, sym, subst, ◌∙◌, ℤ, String, Bool, true, false,
  not, ◌||◌, ◌&&◌, some, List, [], ◌∷◌, ◌++◌, leb, int_eq, int_eq_iff, arith, Bool-cases, ==_iff,
}
use distributed_chat_system.Messages.Table.{Faults}
use distributed_chat_system.Friends.{
  success, Friend, Tables, is_pair, pair_count, insert_friend, add_friend, relation_count,
  check_friend_relation,
}
use distributed_chat_system.Friends.Acceptance.{accepted, add_friend_tables}

-- The primary key of the table friend.
abbrev pub IsKeyed : List Friend → Type 0
IsKeyed rows = (a b : ℤ) → pair_count a b rows ≤ 1

pair_count-append :
    (a b : ℤ) (rows : List Friend) (r : Friend)
    → pair_count a b (rows ++ r ∷ []) ≡ pair_count a b rows + pair_count a b (r ∷ [])
unfolding pair_count
pair_count-append a b [] r = omega arith
pair_count-append a b (q ∷ qs) r = elim (Bool-cases (is_pair a b q)) [
  | inl e ↦ rw e (omega (arith, pair_count-append a b qs r))
  | inr e ↦ rw e (pair_count-append a b qs r)
]

zero_of : (n : ℕ) (b : Bool) → (leb 1 n || b) ≡ false → n ≡ 0
zero_of n true e = ground arith
zero_of n false e = ground arith

zero_of_three : (n : ℕ) (a b : Bool) → (leb 1 n || a || b) ≡ false → n ≡ 0
zero_of_three n true b e = ground arith
zero_of_three n false true e = ground arith
zero_of_three n false false e = ground arith

or_false_of : (b : Bool) → b ≡ false → (b || false) ≡ false
or_false_of b e = rw e refl

row_counts :
    (s f : ℤ) (back : String)
    → pair_count s f (record { self_id = s; friend_id = f; back = back } ∷ []) ≡ 1
unfolding pair_count
row_counts s f back = rw ((int_eq_iff s s).1 refl, (int_eq_iff f f).1 refl) refl

insert_friend_kept :
    (is_user : ℤ → Bool) (s f : ℤ) (back : String) (rows : List Friend)
    → leb 1 (pair_count s f rows) ≡ true
    → (insert_friend is_user s f back rows).1 ≡ rows
unfolding insert_friend
insert_friend_kept is_user s f back rows e = rw e refl

insert_friend_added :
    (is_user : ℤ → Bool) (s f : ℤ) (back : String) (rows : List Friend)
    → is_user s ≡ true
    → is_user f ≡ true
    → leb 1 (pair_count s f rows) ≡ false
    → (insert_friend is_user s f back rows).1
      ≡ rows ++ record { self_id = s; friend_id = f; back = back } ∷ []
unfolding insert_friend
insert_friend_added is_user s f back rows hs hf e = rw (e, hs, hf) refl

-- The row that is inserted for a pair.
insert_friend-cases :
    (is_user : ℤ → Bool) (s f : ℤ) (back : String) (rows : List Friend)
    → ((insert_friend is_user s f back rows).1 ≡ rows)
      ⊎ ((pair_count s f rows ≡ 0)
          × ((insert_friend is_user s f back rows).1
              ≡ rows ++ record { self_id = s; friend_id = f; back = back } ∷ []))
unfolding insert_friend
insert_friend-cases is_user s f back rows =
    elim (Bool-cases (leb 1 (pair_count s f rows) || not (is_user s) || not (is_user f))) [
      | inl e ↦ inl (rw e refl)
      | inr e ↦
          inr (zero_of_three (pair_count s f rows) (not (is_user s)) (not (is_user f)) e, rw e refl)
    ]

insert_friend_present :
    (is_user : ℤ → Bool) (s f : ℤ) (back : String) (rows : List Friend)
    → is_user s ≡ true
    → is_user f ≡ true
    → pair_count s f rows ≤ 1
    → pair_count s f (insert_friend is_user s f back rows).1 ≡ 1
insert_friend_present is_user s f back rows hs hf keyed =
    elim (Bool-cases (leb 1 (pair_count s f rows))) [
      | inl e ↦ ap (pair_count s f) (insert_friend_kept is_user s f back rows e) ∙ ground arith
      | inr e ↦
          ap (pair_count s f) (insert_friend_added is_user s f back rows hs hf e)
          ∙ pair_count-append s f rows (record { self_id = s; friend_id = f; back = back })
          ∙ omega (
            arith,
            row_counts s f back,
            zero_of (pair_count s f rows) false (or_false_of (leb 1 (pair_count s f rows)) e),
          )
    ]

insert_friend_other :
    (is_user : ℤ → Bool) (s f : ℤ) (back : String) (rows : List Friend) (a b : ℤ)
    → (int_eq s a && int_eq f b) ≡ false
    → pair_count a b (insert_friend is_user s f back rows).1 ≡ pair_count a b rows
unfolding pair_count
insert_friend_other is_user s f back rows a b e = elim (insert_friend-cases is_user s f back rows) [
  | inl h ↦ ap (pair_count a b) h
  | inr (z, h) ↦
      ap (pair_count a b) h
      ∙ pair_count-append a b rows (record { self_id = s; friend_id = f; back = back })
      ∙ rw e (omega arith)
]

-- A row of one direction is none of the other.
one_direction : (a b : ℤ) (r : Friend) → a ≢ b → is_pair a b r ≡ true → is_pair b a r ≡ false
one_direction a b r ne e = ground (arith, int_eq_iff r.self_id a, int_eq_iff r.self_id b)

relation_count-is :
    (a b : ℤ) (rows : List Friend)
    → a ≢ b
    → relation_count a b rows ≡ pair_count a b rows + pair_count b a rows
unfolding relation_count pair_count
relation_count-is a b [] ne = omega arith
relation_count-is a b (r ∷ rs) ne = elim (Bool-cases (is_pair a b r)) [
  | inl e ↦ rw (e, one_direction a b r ne e) (omega (arith, relation_count-is a b rs ne))
  | inr e ↦ rw e (elim (Bool-cases (is_pair b a r)) [
    | inl h ↦ rw h (omega (arith, relation_count-is a b rs ne))
    | inr h ↦ rw h (relation_count-is a b rs ne)
  ])
]

left_equal : (s a f b : ℤ) → (int_eq s a && int_eq f b) ≡ true → s ≡ a
left_equal s a f b e = ground (arith, int_eq_iff s a)

right_equal : (s a f b : ℤ) → (int_eq s a && int_eq f b) ≡ true → f ≡ b
right_equal s a f b e = ground (arith, int_eq_iff f b)

one_at_most :
    (is_user : ℤ → Bool) (s f : ℤ) (back : String) (rows : List Friend)
    → pair_count s f rows ≤ 1
    → pair_count s f (insert_friend is_user s f back rows).1 ≤ 1
one_at_most is_user s f back rows keyed = elim (insert_friend-cases is_user s f back rows) [
  | inl h ↦ subst (λ v. pair_count s f v ≤ 1) (sym h) keyed
  | inr (z, h) ↦
      subst (λ v. pair_count s f v ≤ 1) (sym h)
        (omega (
          arith,
          pair_count-append s f rows (record { self_id = s; friend_id = f; back = back }),
          row_counts s f back,
          z,
        ))
]

pub insert_friend-IsKeyed :
    (is_user : ℤ → Bool) (s f : ℤ) (back : String) (rows : List Friend)
    → IsKeyed rows
    → IsKeyed (insert_friend is_user s f back rows).1
insert_friend-IsKeyed is_user s f back rows keyed a b =
    elim (Bool-cases (int_eq s a && int_eq f b)) [
      | inr e ↦
          subst (λ n. n ≤ 1) (sym (insert_friend_other is_user s f back rows a b e)) (keyed a b)
      | inl e ↦
          subst (λ x. pair_count x b (insert_friend is_user s f back rows).1 ≤ 1)
            (left_equal s a f b e)
            (subst (λ y. pair_count s y (insert_friend is_user s f back rows).1 ≤ 1)
              (right_equal s a f b e) (one_at_most is_user s f back rows (keyed s f)))
    ]

crossed : (a b : ℤ) → b ≢ a → (int_eq a b && int_eq b a) ≡ false
crossed a b ne = ground (arith, int_eq_iff a b)

checked :
    (g : Faults) (tables : Tables) (a b : ℤ)
    → (not g.connected || g.throws 0) ≡ false
    → a ≢ b
    → pair_count a b tables.friends ≡ 1
    → pair_count b a tables.friends ≡ 1
    → check_friend_relation g tables a b ≡ some true
unfolding check_friend_relation
checked g tables a b h ne forth back = rw h (
    ap some (
      (==_iff (relation_count a b tables.friends) 2).1
        (omega (arith, relation_count-is a b tables.friends ne, forth, back))))

-- Two users, neither of them the other: when AddFriend succeeds on a table that respects its primary
-- key, then CheckFriendRelation, given a connection and a statement that does not throw, says that
-- they are friends, whichever is named first.
pub add_friend-friends :
    (is_user : ℤ → Bool) (f g : Faults) (old : Tables) (accepter applicant : ℤ) (back : String)
    → is_user accepter ≡ true
    → is_user applicant ≡ true
    → accepter ≢ applicant
    → IsKeyed old.friends
    → (add_friend is_user f old accepter applicant back).0 ≡ success
    → (not g.connected || g.throws 0) ≡ false
    → (check_friend_relation g
          (add_friend is_user f old accepter applicant back).1
          accepter
          applicant
        ≡ some true)
      × (check_friend_relation g
            (add_friend is_user f old accepter applicant back).1
            applicant
            accepter
          ≡ some true)
add_friend-friends is_user f g old accepter applicant back ha hb ne keyed e h =
    let once = (insert_friend is_user accepter applicant back old.friends).1 in
    let forth =
      insert_friend_other is_user applicant accepter "" once accepter applicant
        (crossed applicant accepter ne)
      ∙ insert_friend_present is_user accepter applicant back old.friends ha hb
          (keyed accepter applicant) in
    let back_again = insert_friend_present is_user applicant accepter "" once hb ha (
      insert_friend-IsKeyed is_user accepter applicant back old.friends keyed applicant accepter) in
    let tables = add_friend_tables is_user f old accepter applicant back e in
    (
      ap (λ t. check_friend_relation g t accepter applicant) tables
          ∙ checked g (accepted is_user old accepter applicant back) accepter applicant h ne forth
              back_again,
      ap (λ t. check_friend_relation g t applicant accepter) tables
          ∙ checked g (accepted is_user old accepter applicant back) applicant accepter h
              (λ k. ne (sym k)) back_again forth,
    )
