-- ===== src/Base/Members.antt =====
-- Membership as the Boolean `contains`, and what depends on the members of a list alone.
use Prim.Native.Nat.{ℕ, ◌≤◌, max}
use mathlib.Core.Path.{◌≡◌, refl}
use mathlib.Core.Logic.{◌⊎◌, inl, inr}
use mathlib.Core.Bool.{Bool, true, ◌||◌}
use mathlib.Core.List.{List, [], ◌∷◌, ◌++◌}
use native.Mathlib.Omega.{arith}
use codex_preflight.Base.Equality.{Eq, contains}
use codex_preflight.Base.Lists.{any}

module _ {ℓ} {A : Type ℓ} ⦃e : Eq A⦄ where
  -- Every member of the first list is one of the second.
  abbrev pub Within : List A → List A → Type ℓ
  Within xs ys = (a : A) → contains xs a ≡ true → contains ys a ≡ true

  pub contains-cons_self : (a : A) (xs : List A) → contains (a ∷ xs) a ≡ true
  contains-cons_self a xs = ground (arith, (e.beq_iff a a).1 refl)

  pub contains-cons_of : (a b : A) (xs : List A) → contains xs a ≡ true → contains (b ∷ xs) a ≡ true
  contains-cons_of a b xs h = ground arith

  pub contains-append :
      (xs ys : List A) (a : A) → contains (xs ++ ys) a ≡ (contains xs a || contains ys a)
  contains-append [] ys a = refl
  contains-append (x ∷ xs) ys a = ground (arith, contains-append xs ys a)

  module _ (p : A → Bool) where
    pub any_of_contains :
        (xs : List A) (a : A) → contains xs a ≡ true → p a ≡ true → any p xs ≡ true
    any_of_contains [] a m h = cc
    any_of_contains (x ∷ xs) a m h = ground (arith, e.beq_iff a x, any_of_contains xs a)

    pub any-Within : (xs ys : List A) → Within xs ys → any p xs ≡ true → any p ys ≡ true
    any-Within [] ys w h = cc
    any-Within (x ∷ xs) ys w h = ground (
      arith,
      any_of_contains ys x (w x (contains-cons_self x xs)),
      any-Within xs ys (λ a m. w a (contains-cons_of a x xs m)),
    )

    pub any-eq_of_Within : (xs ys : List A) → Within xs ys → Within ys xs → any p xs ≡ any p ys
    any-eq_of_Within xs ys w v = ground (arith, any-Within xs ys w, any-Within ys xs v)

-- The largest value of `f` on the list, 0 on the empty one.
abbrev pub largest {ℓ} : {A : Type ℓ} → (A → ℕ) → List A → ℕ
largest f [] = 0
largest f (x ∷ xs) = max (f x) (largest f xs)

module _ {ℓ} {A : Type ℓ} ⦃e : Eq A⦄ (f : A → ℕ) where
  pub le-largest : (xs : List A) (a : A) → contains xs a ≡ true → f a ≤ largest f xs
  le-largest [] a m = cc
  le-largest (x ∷ xs) a m = ground (arith, e.beq_iff a x, le-largest xs a)

  pub largest-Within : (xs ys : List A) → Within xs ys → largest f xs ≤ largest f ys
  largest-Within [] ys w = omega arith
  largest-Within (x ∷ xs) ys w = omega (
    arith,
    le-largest ys x (w x (contains-cons_self x xs)),
    largest-Within xs ys (λ a m. w a (contains-cons_of a x xs m)),
  )

  pub largest-eq_of_Within :
      (xs ys : List A) → Within xs ys → Within ys xs → largest f xs ≡ largest f ys
  largest-eq_of_Within xs ys w v = omega (arith, largest-Within xs ys w, largest-Within ys xs v)

-- The element stands in the list, at a place that the evidence names.
pub data IsIn {ℓ} {A : Type ℓ} (a : A) : List A → Type ℓ where
  here : {x : A} {xs : List A} → a ≡ x → IsIn a (x ∷ xs)
  there : {x : A} {xs : List A} → IsIn a xs → IsIn a (x ∷ xs)

pub IsIn-append {ℓ} :
    {A : Type ℓ} (a : A) (xs ys : List A) → IsIn a (xs ++ ys) → IsIn a xs ⊎ IsIn a ys
IsIn-append a [] ys h = inr h
IsIn-append a (x ∷ xs) ys (here e) = inl (here e)
IsIn-append a (x ∷ xs) ys (there h) = elim (IsIn-append a xs ys h) [
  | inl k ↦ inl (there k)
  | inr k ↦ inr k
]
