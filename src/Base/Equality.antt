-- ===== src/Base/Equality.antt =====
-- Python's `==` and `in` for the types that the program compares.
use Prim.Native.Nat.{ℕ}
use Prim.Native.String.{String}
use mathlib.Core.Path.{◌≡◌, refl}
use mathlib.Core.Logic.{◌↔◌}
use mathlib.Core.Bool.{Bool, true, false, ◌&&◌, ◌||◌}
use mathlib.Core.Option.{Option, none, some}
use mathlib.Core.List.{List, [], ◌∷◌}
use native.Mathlib.Omega.{arith}
use text.Mathlib.Text.{◌==◌ as string_eqb}
use text.Mathlib.TextEquality.{eq_iff}
use codex_preflight.Base.Tests.{nat_eqb}

pub record Eq {ℓ} (A : Type ℓ) : Type ℓ where
  pub beq : A → A → Bool
  pub beq_iff : (x y : A) → (beq x y ≡ true) ↔ (x ≡ y)

infix 50 ◌==◌
abbrev pub ◌==◌ {ℓ} : {A : Type ℓ} ⦃equality : Eq A⦄ → A → A → Bool
◌==◌ ⦃equality⦄ = equality.beq

instance abbrev pub string_eq : Eq String
string_eq = record { beq = string_eqb; beq_iff = eq_iff }

pub nat_eqb_iff : (a b : ℕ) → (nat_eqb a b ≡ true) ↔ (a ≡ b)
nat_eqb_iff a b = ground arith

instance abbrev pub nat_eq : Eq ℕ
nat_eq = record { beq = nat_eqb; beq_iff = nat_eqb_iff }

module _ {ℓ} {A : Type ℓ} ⦃e : Eq A⦄ where
  abbrev pub option_eqb : Option A → Option A → Bool
  option_eqb none none = true
  option_eqb none (some b) = false
  option_eqb (some a) none = false
  option_eqb (some a) (some b) = a == b

  pub option_eqb_iff : (a b : Option A) → (option_eqb a b ≡ true) ↔ (a ≡ b)
  option_eqb_iff none none = ground arith
  option_eqb_iff none (some b) = ground arith
  option_eqb_iff (some a) none = ground arith
  option_eqb_iff (some a) (some b) = ground (arith, e.beq_iff a b)

  instance abbrev pub option_eq : Eq (Option A)
  option_eq = record { beq = option_eqb; beq_iff = option_eqb_iff }

  abbrev pub list_eqb : List A → List A → Bool
  list_eqb (a ∷ left) (b ∷ right) = a == b && list_eqb left right
  list_eqb [] [] = true
  list_eqb _ _ = false

  pub list_eqb_iff : (left right : List A) → (list_eqb left right ≡ true) ↔ (left ≡ right)
  list_eqb_iff (a ∷ left) (b ∷ right) = ground (arith, list_eqb_iff left right, e.beq_iff a b)
  list_eqb_iff (a ∷ left) [] = ground arith
  list_eqb_iff [] (b ∷ right) = ground arith
  list_eqb_iff [] [] = ground arith

  instance abbrev pub list_eq : Eq (List A)
  list_eq = record { beq = list_eqb; beq_iff = list_eqb_iff }

  pub eqb_refl : (a : A) → (a == a) ≡ true
  eqb_refl a = (e.beq_iff a a).1 refl

  -- `a in xs`
  abbrev pub contains : List A → A → Bool
  contains [] a = false
  contains (x ∷ xs) a = a == x || contains xs a
