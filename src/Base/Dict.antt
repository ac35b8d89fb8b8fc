-- ===== src/Base/Dict.antt =====
-- Python dicts with string keys, in insertion order.
use Prim.Native.Nat.{◌+◌, ◌≤◌}
use Prim.Native.String.{String}
use mathlib.Core.Path.{◌≡◌}
use mathlib.Core.Option.{Option, none, some}
use mathlib.Core.List.{List, [], ◌∷◌}
use native.Mathlib.Omega.{arith}
use codex_preflight.Base.Equality.{◌==◌, string_eq}
use codex_preflight.Base.Lists.{length}
use codex_preflight.Base.Tests.{if◌then◌else◌}

module _ {ℓ} {V : Type ℓ} where
  -- `d.get(k)`
  abbrev pub dict_get : String → List (String × V) → Option V
  dict_get k [] = none
  dict_get k ((j, v) ∷ d) = if j == k then some v else dict_get k d

  -- `d[k] = v`: in place for a key that is there, else at the end
  abbrev pub dict_set : String → V → List (String × V) → List (String × V)
  dict_set k v [] = (k, v) ∷ []
  dict_set k v ((j, w) ∷ d) = if j == k then (j, v) ∷ d else (j, w) ∷ dict_set k v d

  pub dict_get-dict_set :
      (k : String) (v : V) (d : List (String × V)) → dict_get k (dict_set k v d) ≡ some v
  dict_get-dict_set k v [] = ground (arith, string_eq.beq_iff k k)
  dict_get-dict_set k v ((j, w) ∷ d) = ground (arith, dict_get-dict_set k v d)

  pub length-dict_set :
      (k : String) (v : V) (d : List (String × V)) → length (dict_set k v d) ≤ length d + 1
  length-dict_set k v [] = omega arith
  length-dict_set k v ((j, w) ∷ d) = ground (arith, length-dict_set k v d)
