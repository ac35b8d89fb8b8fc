-- ===== src/Base/Sorting.antt =====
-- Python's `sorted` on strings, as insertion sort, and what it leaves alone.
use Prim.Native.Nat.{Ordering}
use Prim.Native.String.{String, compare}
use mathlib.Core.Path.{◌≡◌, refl, ◌∙◌}
use mathlib.Core.Bool.{Bool, true, false, ◌||◌}
use mathlib.Core.List.{List, [], ◌∷◌}
use native.Mathlib.Omega.{arith}
use codex_preflight.Base.Equality.{◌==◌, string_eq, contains}
use codex_preflight.Base.Tests.{if◌then◌else◌}

abbrev pub string_leb : String → String → Bool
string_leb a b = elim (compare a b) [ Ordering.gt ↦ false | _ ↦ true ]

unfoldable pub insert_sorted : String → List String → List String
insert_sorted a [] = a ∷ []
insert_sorted a (x ∷ xs) = if string_leb a x then a ∷ x ∷ xs else x ∷ insert_sorted a xs

unfoldable pub sorted : List String → List String
unfolding insert_sorted
sorted [] = []
sorted (x ∷ xs) = insert_sorted x (sorted xs)

contains-insert_sorted :
    (a b : String) (xs : List String) → contains (insert_sorted a xs) b ≡ (b == a || contains xs b)
unfolding insert_sorted
contains-insert_sorted a b [] = refl
contains-insert_sorted a b (x ∷ xs) = ground (arith, contains-insert_sorted a b xs)

pub contains-sorted : (xs : List String) (a : String) → contains (sorted xs) a ≡ contains xs a
unfolding sorted
contains-sorted [] a = refl
contains-sorted (x ∷ xs) a =
    ground (arith, contains-insert_sorted x a (sorted xs), contains-sorted xs a)

-- No string is listed twice.
abbrev pub NoRepeats : List String → Type 0
NoRepeats [] = Unit
NoRepeats (x ∷ xs) = (contains xs x ≡ false) × NoRepeats xs

insert_sorted-NoRepeats :
    (a : String) (xs : List String)
    → contains xs a ≡ false
    → NoRepeats xs
    → NoRepeats (insert_sorted a xs)
unfolding insert_sorted
insert_sorted-NoRepeats a [] h u = (refl, tt)
insert_sorted-NoRepeats a (x ∷ xs) h u = ground (
  arith,
  contains-insert_sorted a x xs,
  string_eq.beq_iff x a,
  string_eq.beq_iff a x,
  insert_sorted-NoRepeats a xs,
)

pub sorted-NoRepeats : (xs : List String) → NoRepeats xs → NoRepeats (sorted xs)
unfolding sorted
sorted-NoRepeats [] u = tt
sorted-NoRepeats (x ∷ xs) u =
    insert_sorted-NoRepeats x (sorted xs) (contains-sorted xs x ∙ u.0) (sorted-NoRepeats xs u.1)
