-- ===== src/Routing/Candidates.antt =====
-- selectLeastLoaded: the values that pass through the minimum, the candidates and their sort.
use distributed_chat_system.Prelude.{
  ℕ, zero, suc, ◌≤◌, ◌<◌, min, ◌≡◌, ◌⊎◌, inl, inr, refl, ap, String, Bool, true, false, some, List,
  [], ◌∷◌, ◌==◌, length, get_elem?, All, arith, Bool-cases, leb, leb→le, ◌∙◌, subst, sym, ==_iff,
}
use distributed_chat_system.Routing.{ServerLoad, int_max, minimum, candidates, insert_sorted, sort}

abbrev pub InRange : List ServerLoad → Type 0
InRange = All (λ s. s.connection_count ≤ int_max)

leb-false : (a b : ℕ) → leb a b ≡ false → b < a
leb-false a b h = ground arith

pub some-inj : {A : Type 0} {x y : A} → some x ≡ some y → x ≡ y
some-inj e = cc

pub minimum-le :
    (acc : ℕ) (ss : List ServerLoad)
    → (minimum acc ss ≤ acc) × All (λ s. minimum acc ss ≤ s.connection_count) ss
unfolding minimum
minimum-le acc [] = (omega arith, tt)
minimum-le acc (s ∷ ss) =
    let rest = minimum-le (min acc s.connection_count) ss in
    (omega (arith, rest.0), (omega (arith, rest.0), rest.1))

-- The minimum is reached, by the start value or by a server.
minimum_reached :
    (acc : ℕ) (ss : List ServerLoad)
    → (minimum acc ss ≡ acc)
      ⊎ ((i : ℕ) × (s : ServerLoad) × (get_elem? ss i ≡ some s)
          × (s.connection_count ≡ minimum acc ss))
unfolding minimum
minimum_reached acc [] = inl refl
minimum_reached acc (s ∷ ss) = elim (minimum_reached (min acc s.connection_count) ss) [
  | inr (i, t, e, h) ↦ inr (suc i, t, e, h)
  | inl e ↦ elim (Bool-cases (leb acc s.connection_count)) [
    | inl h ↦ inl (omega (arith, e, leb→le acc s.connection_count h))
    | inr h ↦ inr (0, s, refl, omega (arith, e, leb-false acc s.connection_count h))
  ]
]

-- A value that stands in a list, at some index.
abbrev pub Has : {A : Type 0} → List A → A → Type 0
Has xs x = (i : ℕ) × (get_elem? xs i ≡ some x)

pub Has-cons : {A : Type 0} (y : A) (xs : List A) (x : A) → Has (y ∷ xs) x → (y ≡ x) ⊎ Has xs x
Has-cons y xs x (zero, e) = inl (some-inj e)
Has-cons y xs x (suc i, e) = inr (i, e)

Has-tail : {A : Type 0} (y : A) (xs : List A) (x : A) → Has xs x → Has (y ∷ xs) x
Has-tail y xs x (i, e) = (suc i, e)

candidates_hit :
    (least : ℕ) (s : ServerLoad) (ss : List ServerLoad)
    → (s.connection_count == least) ≡ true
    → candidates least (s ∷ ss) ≡ s.name ∷ candidates least ss
unfolding candidates
candidates_hit least s ss e = rw e refl

candidates_miss :
    (least : ℕ) (s : ServerLoad) (ss : List ServerLoad)
    → (s.connection_count == least) ≡ false
    → candidates least (s ∷ ss) ≡ candidates least ss
unfolding candidates
candidates_miss least s ss e = rw e refl

-- A least loaded server of a list that is not empty.
pub least_server :
    (s : ServerLoad) (ss : List ServerLoad)
    → InRange (s ∷ ss)
    → (i : ℕ) × (t : ServerLoad) × (get_elem? (s ∷ ss) i ≡ some t)
      × (t.connection_count ≡ minimum int_max (s ∷ ss))
least_server s ss range = elim (minimum_reached int_max (s ∷ ss)) [
  | inr found ↦ found
  | inl e ↦ (0, s, refl, omega (arith, e, range.0, (minimum-le int_max (s ∷ ss)).1.0))
]

pub Has-candidate :
    (least : ℕ) (ss : List ServerLoad) (t : ServerLoad)
    → Has ss t
    → t.connection_count ≡ least
    → Has (candidates least ss) t.name
unfolding candidates
Has-candidate least [] t (i, e) h = ground arith
Has-candidate least (s ∷ ss) t has h = elim (Has-cons s ss t has) [
  | inl e ↦
      subst (λ ns. Has ns t.name)
        (sym (
          candidates_hit least s ss
            ((==_iff s.connection_count least).1 (ap (λ v. v.connection_count) e ∙ h))))
        (0, ap (λ v. some v.name) e)
  | inr rest ↦ elim (Bool-cases (s.connection_count == least)) [
    | inl e ↦
        subst (λ ns. Has ns t.name) (sym (candidates_hit least s ss e))
          (Has-tail s.name (candidates least ss) t.name (Has-candidate least ss t rest h))
    | inr e ↦
        subst (λ ns. Has ns t.name) (sym (candidates_miss least s ss e))
          (Has-candidate least ss t rest h)
  ]
]

server_tail :
    (least : ℕ) (name : String) (s : ServerLoad) (ss : List ServerLoad)
    → ((t : ServerLoad) × Has ss t × (t.name ≡ name) × (t.connection_count ≡ least))
    → (t : ServerLoad) × Has (s ∷ ss) t × (t.name ≡ name) × (t.connection_count ≡ least)
server_tail least name s ss (t, has, e, h) = (t, Has-tail s ss t has, e, h)

pub candidate-Has :
    (least : ℕ) (ss : List ServerLoad) (name : String)
    → Has (candidates least ss) name
    → (t : ServerLoad) × Has ss t × (t.name ≡ name) × (t.connection_count ≡ least)
unfolding candidates
candidate-Has least [] name (i, e) = ground arith
candidate-Has least (s ∷ ss) name has = elim (Bool-cases (s.connection_count == least)) [
  | inl e ↦
      elim (Has-cons s.name (candidates least ss) name
        (subst (λ ns. Has ns name) (candidates_hit least s ss e) has)) [
          | inl same_name ↦ (s, (0, refl), same_name, (==_iff s.connection_count least).0 e)
          | inr rest ↦ server_tail least name s ss (candidate-Has least ss name rest)
        ]
  | inr e ↦
      server_tail least name s ss
        (candidate-Has least ss name (subst (λ ns. Has ns name) (candidates_miss least s ss e) has))
]

module _ (before : String → String → Bool) where
  length-insert_sorted :
      (n : String) (ms : List String) → length (insert_sorted before n ms) ≡ suc (length ms)
  unfolding insert_sorted
  length-insert_sorted n [] = refl
  length-insert_sorted n (m ∷ ms) = elim (Bool-cases (before m n)) [
    | inl e ↦ rw e (ap suc (length-insert_sorted n ms))
    | inr e ↦ rw e refl
  ]

  pub length-sort : (ns : List String) → length (sort before ns) ≡ length ns
  unfolding sort
  length-sort [] = refl
  length-sort (n ∷ ns) = length-insert_sorted n (sort before ns) ∙ ap suc (length-sort ns)

  insert_after :
      (n m : String) (ms : List String)
      → before m n ≡ true
      → insert_sorted before n (m ∷ ms) ≡ m ∷ insert_sorted before n ms
  unfolding insert_sorted
  insert_after n m ms e = rw e refl

  insert_before :
      (n m : String) (ms : List String)
      → before m n ≡ false
      → insert_sorted before n (m ∷ ms) ≡ n ∷ m ∷ ms
  unfolding insert_sorted
  insert_before n m ms e = rw e refl

  Has-insert_sorted :
      (n : String) (ms : List String) (x : String)
      → Has (n ∷ ms) x
      → Has (insert_sorted before n ms) x
  unfolding insert_sorted
  Has-insert_sorted n [] x has = has
  Has-insert_sorted n (m ∷ ms) x has = elim (Bool-cases (before m n)) [
    | inr e ↦ subst (λ ns. Has ns x) (sym (insert_before n m ms e)) has
    | inl e ↦
        subst (λ ns. Has ns x) (sym (insert_after n m ms e))
          (elim (Has-cons n (m ∷ ms) x has) [
            | inl here ↦
                Has-tail m (insert_sorted before n ms) x
                  (Has-insert_sorted n ms x (0, ap some here))
            | inr there ↦ elim (Has-cons m ms x there) [
              | inl here ↦ (0, ap some here)
              | inr rest ↦
                  Has-tail m (insert_sorted before n ms) x
                    (Has-insert_sorted n ms x (Has-tail n ms x rest))
            ]
          ])
  ]

  Has-swap : (n m : String) (ms : List String) (x : String) → Has (n ∷ ms) x → Has (n ∷ m ∷ ms) x
  Has-swap n m ms x has = elim (Has-cons n ms x has) [
    | inl here ↦ (0, ap some here)
    | inr rest ↦ Has-tail n (m ∷ ms) x (Has-tail m ms x rest)
  ]

  insert_sorted-Has :
      (n : String) (ms : List String) (x : String)
      → Has (insert_sorted before n ms) x
      → Has (n ∷ ms) x
  unfolding insert_sorted
  insert_sorted-Has n [] x has = has
  insert_sorted-Has n (m ∷ ms) x has = elim (Bool-cases (before m n)) [
    | inr e ↦ subst (λ ns. Has ns x) (insert_before n m ms e) has
    | inl e ↦
        elim (Has-cons m (insert_sorted before n ms) x
          (subst (λ ns. Has ns x) (insert_after n m ms e) has)) [
            | inl here ↦ (1, ap some here)
            | inr rest ↦ Has-swap n m ms x (insert_sorted-Has n ms x rest)
          ]
  ]

  pub Has-sort : (ns : List String) (x : String) → Has ns x → Has (sort before ns) x
  unfolding sort
  Has-sort [] x has = has
  Has-sort (n ∷ ns) x has = Has-insert_sorted n (sort before ns) x (elim (Has-cons n ns x has) [
    | inl here ↦ (0, ap some here)
    | inr rest ↦ Has-tail n (sort before ns) x (Has-sort ns x rest)
  ])

  pub sort-Has : (ns : List String) (x : String) → Has (sort before ns) x → Has ns x
  unfolding sort
  sort-Has [] x has = has
  sort-Has (n ∷ ns) x has =
      elim (Has-cons n (sort before ns) x (insert_sorted-Has n (sort before ns) x has)) [
        | inl here ↦ (0, ap some here)
        | inr rest ↦ Has-tail n ns x (sort-Has ns x rest)
      ]
