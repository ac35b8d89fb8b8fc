-- ===== src/Policy/Engine/Verdict.antt =====
-- Exactly when the gate blocks a command, and exactly when it lets one pass without a word.
use Prim.Native.Nat.{max}
use codex_preflight.Base.{
  ℕ, ◌≤◌, ◌<◌, ◌≡◌, ◌↔◌, ◌⊎◌, refl, sym, ◌∙◌, ap, String, Bool, true, false, ◌&&◌, List, [], ◌∷◌,
  Option, arith, ◌==◌, any, is_some, largest,
}
use codex_preflight.Command.Scope.{CommandScope, CommandClassification, unknown_shell, scope_eq}
use codex_preflight.Scanner.Finding.{Finding}
use codex_preflight.Policy.Decision.{Decision, allow, block, eq_of_rank, decision_rank}
use codex_preflight.Policy.Matrix.{is_hard_block, minimum_decision_for}
use codex_preflight.Policy.Matrix.Table.{MinimumFits, minimum_fits}
use codex_preflight.Policy.Engine.{evaluate_policy, risk_score_of, is_empty, threshold_decision}
use codex_preflight.Policy.Engine.Loop.{minimum_rank, matrix_rank}
use codex_preflight.Policy.Engine.Order.{rule_ids}
use codex_preflight.Policy.Engine.Gate.{gate, specified_rank, evaluate_policy-rank}

-- Some rule is in the matrix.
abbrev pub any_minimum : CommandScope → List String → Bool
any_minimum scope = any (λ id. is_some (minimum_decision_for id scope))

fits-rank :
    (hard : Bool) (o : Option Decision)
    → MinimumFits hard o
    → (hard ≡ false → minimum_rank o ≤ 2)
      × (is_some o ≡ true → 1 ≤ minimum_rank o)
      × (is_some o ≡ false → (minimum_rank o ≡ 0) × (hard ≡ false))
fits-rank hard o h = ground arith

module _ (scope : CommandScope) where
  largest-le_two :
      (ids : List String) → any is_hard_block ids ≡ false → largest (matrix_rank scope) ids ≤ 2
  largest-le_two [] h = omega arith
  largest-le_two (x ∷ ids) h = ground (
    arith,
    fits-rank (is_hard_block x) (minimum_decision_for x scope) (minimum_fits x scope),
    largest-le_two ids,
  )

  largest-pos :
      (ids : List String) → any_minimum scope ids ≡ true → 1 ≤ largest (matrix_rank scope) ids
  largest-pos [] h = cc
  largest-pos (x ∷ ids) h = ground (
    arith,
    fits-rank (is_hard_block x) (minimum_decision_for x scope) (minimum_fits x scope),
    largest-pos ids,
  )

  largest-zero :
      (ids : List String)
      → any_minimum scope ids ≡ false
      → (largest (matrix_rank scope) ids ≡ 0) × (any is_hard_block ids ≡ false)
  largest-zero [] h = (refl, refl)
  largest-zero (x ∷ ids) h = ground (
    arith,
    fits-rank (is_hard_block x) (minimum_decision_for x scope) (minimum_fits x scope),
    largest-zero ids,
  )

gate-block :
    (hard unknown : Bool) (scope : CommandScope) (n m : ℕ)
    → (hard ≡ false → m ≤ 2)
    → (unknown ≡ true → n ≡ 0)
    → (gate hard unknown scope (max (decision_rank (threshold_decision n)) m) ≡ 3)
      ↔ ((hard ≡ true) ⊎ (74 < n))
gate-block hard unknown scope n m hm hu = ground arith

gate-allow :
    (hard unknown : Bool) (scope : CommandScope) (n m : ℕ)
    → (gate hard unknown scope (max (decision_rank (threshold_decision n)) m) ≡ 0)
      ↔ ((hard ≡ false) × (unknown ≡ false) × (n ≤ 9) × (m ≡ 0))
gate-allow hard unknown scope n m = ground arith

-- An unknown command without findings has the score 0.
quiet_score :
    (findings : List Finding) (b : Bool)
    → (is_empty findings && b) ≡ true
    → risk_score_of findings ≡ 0
quiet_score [] b h = omega arith
quiet_score (f ∷ fs) b h = cc

-- A decision is read off the specified rank.
decision_iff :
    (findings : List Finding) (c : CommandClassification) (d : Decision)
    → ((evaluate_policy findings c).decision ≡ d)
      ↔ (specified_rank findings c.scope ≡ decision_rank d)
decision_iff findings c d = (
  λ p. sym (evaluate_policy-rank findings c) ∙ ap decision_rank p,
  λ q. eq_of_rank _ d (evaluate_policy-rank findings c ∙ q),
)

module _ (findings : List Finding) (c : CommandClassification) where
  blocks :
      (specified_rank findings c.scope ≡ 3)
      ↔ ((any is_hard_block (rule_ids findings) ≡ true) ⊎ (74 < risk_score_of findings))
  blocks =
      gate-block _ _ c.scope (risk_score_of findings) _ (largest-le_two c.scope (rule_ids findings))
        (quiet_score findings (c.scope == unknown_shell))

  -- The gate blocks exactly when a finding's rule is hard-blocking or the score passes 74.
  pub evaluate_policy-block_iff :
      ((evaluate_policy findings c).decision ≡ block)
      ↔ ((any is_hard_block (rule_ids findings) ≡ true) ⊎ (74 < risk_score_of findings))
  evaluate_policy-block_iff =
      let d = decision_iff findings c block in (λ p. blocks.0 (d.0 p), λ q. d.1 (blocks.1 q))

  allows : (specified_rank findings c.scope ≡ 0) ↔ (
      (any is_hard_block (rule_ids findings) ≡ false)
      × ((is_empty findings && c.scope == unknown_shell) ≡ false)
      × (risk_score_of findings ≤ 9)
      × (largest (matrix_rank c.scope) (rule_ids findings) ≡ 0))
  allows = gate-allow _ _ c.scope (risk_score_of findings) _

  -- The gate says ALLOW exactly when no finding's rule has an entry in the matrix, the score is at
  -- most 9, and the command is not an unknown one without findings.
  pub evaluate_policy-allow_iff : ((evaluate_policy findings c).decision ≡ allow) ↔ (
      (any_minimum c.scope (rule_ids findings) ≡ false)
      × ((is_empty findings && c.scope == unknown_shell) ≡ false)
      × (risk_score_of findings ≤ 9))
  evaluate_policy-allow_iff =
      let d = decision_iff findings c allow in
      (
        λ p. let (h, u, s, z) = allows.0 (d.0 p) in (unlisted z, u, s),
        λ (n, u, s).
            let (z, h) = largest-zero c.scope (rule_ids findings) n in d.1 (allows.1 (h, u, s, z)),
      )
    where
      unlisted :
          largest (matrix_rank c.scope) (rule_ids findings) ≡ 0
          → any_minimum c.scope (rule_ids findings) ≡ false
      unlisted z = ground (arith, largest-pos c.scope (rule_ids findings))
