-- ===== src/Policy/Engine/Loop.antt =====
-- The loop over the rule ids takes the maximum of the matrix minimums.
use Prim.Native.Nat.{max}
use codex_preflight.Base.{ℕ, ◌≡◌, String, Option, none, some, List, [], ◌∷◌, arith, largest}
use codex_preflight.Command.Scope.{CommandScope}
use codex_preflight.Policy.Decision.{Decision, decision_rank}
use codex_preflight.Policy.Matrix.{minimum_decision_for}
use codex_preflight.Policy.Engine.{raise_to, apply_minimums}

abbrev pub minimum_rank : Option Decision → ℕ
minimum_rank none = 0
minimum_rank (some d) = decision_rank d

-- The strictness that the matrix asks for a rule.
abbrev pub matrix_rank : CommandScope → String → ℕ
matrix_rank scope rule_id = minimum_rank (minimum_decision_for rule_id scope)

pub raise_to-rank :
    (d : Decision) (m : Option Decision)
    → decision_rank (raise_to d m) ≡ max (decision_rank d) (minimum_rank m)
raise_to-rank d none = ground arith
raise_to-rank d (some m) = ground arith

pub apply_minimums-rank :
    (scope : CommandScope) (ids : List String) (m d : Decision)
    → (decision_rank (apply_minimums scope ids m d).0
        ≡ max (decision_rank m) (largest (matrix_rank scope) ids))
      × (decision_rank (apply_minimums scope ids m d).1
          ≡ max (decision_rank d) (largest (matrix_rank scope) ids))
unfolding apply_minimums
apply_minimums-rank scope [] m d = omega arith
apply_minimums-rank scope (x ∷ ids) m d =
    let minimum = minimum_decision_for x scope in
    omega (
      arith,
      raise_to-rank m minimum,
      raise_to-rank d minimum,
      apply_minimums-rank scope ids (raise_to m minimum) (raise_to d minimum),
    )
