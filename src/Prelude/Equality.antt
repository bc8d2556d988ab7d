-- ===== src/Prelude/Equality.antt =====
-- Boolean equality as an interface, with instances for the program's keys.
use Prim.Native.Nat.{ℕ}
use Prim.Native.String.{String}
use mathlib.Core.Path.{◌≡◌}
use mathlib.Core.Logic.{◌↔◌}
use mathlib.Core.Bool.{Bool, true, false, ◌&&◌}
use mathlib.Core.List.{List, [], ◌∷◌}
use native.Mathlib.Omega.{arith}
use text.Mathlib.Text.{◌==◌ as str_eq}
use text.Mathlib.TextEquality.{eq_iff}
use distributed_chat_system.Prelude.Tests.{◌==◌, ==_iff}
use distributed_chat_system.Prelude.Int.{ℤ, int_eq, int_eq_iff}

pub record Eq {ℓ} (A : Type ℓ) : Type ℓ where
  pub beq : A → A → Bool
  pub beq_iff : (a b : A) → (beq a b ≡ true) ↔ (a ≡ b)

abbrev pub same {ℓ} : {A : Type ℓ} ⦃e : Eq A⦄ → A → A → Bool
same ⦃e⦄ = e.beq

abbrev pub pair_beq : ℤ × String → ℤ × String → Bool
pair_beq (a, s) (b, t) = int_eq a b && str_eq s t

pub pair_beq_iff : (p q : ℤ × String) → (pair_beq p q ≡ true) ↔ (p ≡ q)
pair_beq_iff (a, s) (b, t) = ground (arith, int_eq_iff a b, eq_iff s t)

abbrev pub list_beq {ℓ} : {A : Type ℓ} ⦃e : Eq A⦄ → List A → List A → Bool
list_beq [] [] = true
list_beq ⦃e⦄ (x ∷ xs) (y ∷ ys) = e.beq x y && list_beq xs ys
list_beq _ _ = false

pub list_beq_iff {ℓ} :
    {A : Type ℓ} ⦃e : Eq A⦄ (xs ys : List A) → (list_beq xs ys ≡ true) ↔ (xs ≡ ys)
list_beq_iff [] [] = ground arith
list_beq_iff [] (y ∷ ys) = ground arith
list_beq_iff (x ∷ xs) [] = ground arith
list_beq_iff ⦃e⦄ (x ∷ xs) (y ∷ ys) = ground (arith, e.beq_iff x y, list_beq_iff xs ys)

instance abbrev pub list_eq {ℓ} : {A : Type ℓ} ⦃e : Eq A⦄ → Eq (List A)
list_eq = record { beq = list_beq; beq_iff = list_beq_iff }

instance abbrev pub nat_eq : Eq ℕ
nat_eq = record { beq = ◌==◌; beq_iff = ==_iff }

instance abbrev pub string_eq : Eq String
string_eq = record { beq = str_eq; beq_iff = eq_iff }

instance abbrev pub int_eq_instance : Eq ℤ
int_eq_instance = record { beq = int_eq; beq_iff = int_eq_iff }

instance abbrev pub pair_eq : Eq (ℤ × String)
pair_eq = record { beq = pair_beq; beq_iff = pair_beq_iff }
