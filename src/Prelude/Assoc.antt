-- ===== src/Prelude/Assoc.antt =====
-- Finite maps as association lists, and membership tests over a key type with equality.
use Prim.Native.Nat.{suc, ◌≤◌}
use mathlib.Core.Path.{◌≡◌, refl}
use mathlib.Core.Bool.{Bool, true, false, ◌||◌}
use mathlib.Core.List.{List, [], ◌∷◌}
use mathlib.Core.Option.{Option, none, some}
use native.Mathlib.Omega.{arith}
use distributed_chat_system.Prelude.Tests.{if◌then◌else◌}
use distributed_chat_system.Prelude.Lists.{length}
use distributed_chat_system.Prelude.Equality.{Eq, same}

-- The members that pass a test.
unfoldable pub keep_if {ℓ} : {A : Type ℓ} → (A → Bool) → List A → List A
keep_if p [] = []
keep_if p (x ∷ xs) = if p x then x ∷ keep_if p xs else keep_if p xs

pub length-keep_if-le {ℓ} :
    {A : Type ℓ} (p : A → Bool) (xs : List A) → length (keep_if p xs) ≤ length xs
unfolding keep_if
length-keep_if-le p [] = omega arith
length-keep_if-le p (x ∷ xs) = ground (arith, length-keep_if-le p xs)

module _ {ℓ κ} {K : Type ℓ} {V : Type κ} ⦃e : Eq K⦄ where
  unfoldable pub lookup : K → List (K × V) → Option V
  lookup k [] = none
  lookup k ((j, v) ∷ m) = if same j k then some v else lookup k m

  unfoldable pub insert : K → V → List (K × V) → List (K × V)
  insert k v [] = (k, v) ∷ []
  insert k v ((j, w) ∷ m) = if same j k then (k, v) ∷ m else (j, w) ∷ insert k v m

  unfoldable pub erase : K → List (K × V) → List (K × V)
  erase k [] = []
  erase k ((j, w) ∷ m) = if same j k then m else (j, w) ∷ erase k m

  pub lookup-insert :
      (k j : K) (v : V) (m : List (K × V))
      → lookup j (insert k v m) ≡ (if same k j then some v else lookup j m)
  unfolding lookup insert
  lookup-insert k j v [] = refl
  lookup-insert k j v ((i, w) ∷ m) =
      ground (arith, e.beq_iff k j, e.beq_iff i k, e.beq_iff i j, lookup-insert k j v m)

module _ {ℓ} {K : Type ℓ} ⦃e : Eq K⦄ where
  unfoldable pub contains : List K → K → Bool
  contains [] k = false
  contains (x ∷ xs) k = same x k || contains xs k

  -- No key twice.
  abbrev pub Distinct : List K → Type ℓ
  Distinct [] = Unit
  Distinct (x ∷ xs) = (contains xs x ≡ false) × Distinct xs

  unfoldable pub remove_one : K → List K → List K
  remove_one k [] = []
  remove_one k (x ∷ xs) = if same x k then xs else x ∷ remove_one k xs

  length-remove_one :
      (k : K) (xs : List K) → contains xs k ≡ true → suc (length (remove_one k xs)) ≡ length xs
  unfolding contains remove_one
  length-remove_one k [] h = ground arith
  length-remove_one k (x ∷ xs) h = ground (arith, length-remove_one k xs)

  contains-remove_one :
      (k j : K) (xs : List K)
      → contains xs j ≡ true
      → same k j ≡ false
      → contains (remove_one k xs) j ≡ true
  unfolding contains remove_one
  contains-remove_one k j [] h n = h
  contains-remove_one k j (x ∷ xs) h n =
      ground (arith, e.beq_iff x k, e.beq_iff k j, e.beq_iff x j, contains-remove_one k j xs)

  -- A list without repetition is no longer than a list that has all its members.
  pub length-le_of_subset :
      (xs ys : List K)
      → Distinct xs
      → ((k : K) → contains xs k ≡ true → contains ys k ≡ true)
      → length xs ≤ length ys
  unfolding contains
  length-le_of_subset [] ys d sub = omega arith
  length-le_of_subset (x ∷ xs) ys d sub = omega (
    arith,
    length-le_of_subset xs (remove_one x ys) d.1 rest,
    length-remove_one x ys (sub x (ground (arith, e.beq_iff x x))),
  )
    where
      rest : (k : K) → contains xs k ≡ true → contains (remove_one x ys) k ≡ true
      rest k h =
          contains-remove_one x k ys (sub k (ground arith)) (ground (arith, e.beq_iff x k, d.0))
