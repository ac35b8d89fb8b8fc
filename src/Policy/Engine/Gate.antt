-- ===== src/Policy/Engine/Gate.antt =====
-- When the gate blocks, when it lets a command pass, and that more findings never make it milder.
use Prim.Native.Nat.{max}
use mathlib.Core.List.{map-append}
use codex_preflight.Base.{
  ℕ, ◌+◌, ◌≤◌, ◌≡◌, inl, inr, refl, sym, ◌∙◌, ap, String, Bool, true, false, ◌&&◌, List, [], ◌∷◌,
  ◌++◌, arith, ◌==◌, Option, none, some, string_eq, nat_eq, contains-append, Within, any,
  any-Within, largest, largest-Within, sum_by-append, Bool-cases, if◌then◌else◌,
}
use codex_preflight.Command.Scope.{
  CommandScope, CommandClassification, safe_readonly, unknown_shell, scope_eq,
}
use codex_preflight.Scanner.Finding.{Finding}
use codex_preflight.Policy.Decision.{Decision, PolicyResult, allow, ◌⊑◌, decision_rank, decision_eq}
use codex_preflight.Policy.Matrix.{is_hard_block, minimum_decision_for}
use codex_preflight.Policy.Engine.{
  apply_minimums, conclude, evaluate_over, evaluate_policy, risk_score_of, is_empty,
  threshold_decision,
}
use codex_preflight.Policy.Engine.Loop.{matrix_rank, minimum_rank, apply_minimums-rank}
use codex_preflight.Policy.Engine.Order.{rule_ids, evaluate_over-evaluate_policy}

-- The decision as a number, without the loop: the highest of the threshold and of the matrix
-- minimums, with user review lowered to a warning for read-only commands.
abbrev pub soften : CommandScope → ℕ → ℕ
soften scope n = if scope == safe_readonly && n == 2 then 1 else n

abbrev pub gate : Bool → Bool → CommandScope → ℕ → ℕ
gate hard unknown scope n = if hard then 3 else if unknown then 1 else soften scope n

abbrev pub combined_rank : CommandScope → ℕ → List String → ℕ
combined_rank scope score ids =
    max (decision_rank (threshold_decision score)) (largest (matrix_rank scope) ids)

abbrev pub specified_rank : List Finding → CommandScope → ℕ
specified_rank findings scope =
    gate (any is_hard_block (rule_ids findings)) (is_empty findings && scope == unknown_shell) scope
      (combined_rank scope (risk_score_of findings) (rule_ids findings))

conclude-rank :
    (findings : List Finding) (scope : CommandScope) (score : ℕ) (t m d : Decision)
    → decision_rank (conclude findings scope score t (m, d)).decision
      ≡ (if is_empty findings && scope == unknown_shell then 1 else soften scope (decision_rank d))
unfolding conclude
conclude-rank findings scope score t m d = ground arith

evaluate_over-rank :
    (ids : List String) (findings : List Finding) (c : CommandClassification)
    → decision_rank (evaluate_over ids findings c).decision
      ≡ gate
          (any is_hard_block ids)
          (is_empty findings && c.scope == unknown_shell)
          c.scope
          (combined_rank c.scope (risk_score_of findings) ids)
unfolding evaluate_over
evaluate_over-rank ids findings c =
    let t = threshold_decision (risk_score_of findings) in
    let (m, d) = apply_minimums c.scope ids allow t in
    elim (Bool-cases (any is_hard_block ids)) [
      | inl h ↦ rw h refl
      | inr h ↦
          rw (h, ← (apply_minimums-rank c.scope ids allow t).1)
            (conclude-rank findings c.scope (risk_score_of findings) t m d)
    ]

-- The decision of `evaluate_policy` is, in rank, the specified one: 3 where a rule is hard-blocking;
-- else 1 for an unknown command without findings; else the maximum of the score's threshold and of
-- the matrix minimums of the rules, where 2 is lowered to 1 for a read-only command.
pub evaluate_policy-rank :
    (findings : List Finding) (c : CommandClassification)
    → decision_rank (evaluate_policy findings c).decision ≡ specified_rank findings c.scope
evaluate_policy-rank findings c =
    ap (λ (r : PolicyResult). decision_rank r.decision)
      (sym (evaluate_over-evaluate_policy (rule_ids findings) findings c (λ a m. m) (λ a m. m)))
    ∙ evaluate_over-rank (rule_ids findings) findings c

threshold_mono : (m n : ℕ) → m ≤ n → threshold_decision m ⊑ threshold_decision n
threshold_mono m n h = ground arith

soften_mono : (scope : CommandScope) (m n : ℕ) → m ≤ n → n ≤ 3 → soften scope m ≤ soften scope n
soften_mono scope m n h k = ground arith

rank-le : (d : Decision) → decision_rank d ≤ 3
rank-le d = ground arith

minimum_rank-le : (o : Option Decision) → minimum_rank o ≤ 3
minimum_rank-le none = omega arith
minimum_rank-le (some d) = rank-le d

matrix_rank-le : (scope : CommandScope) (ids : List String) → largest (matrix_rank scope) ids ≤ 3
matrix_rank-le scope [] = omega arith
matrix_rank-le scope (x ∷ ids) =
    omega (arith, minimum_rank-le (minimum_decision_for x scope), matrix_rank-le scope ids)

combined_rank-le :
    (scope : CommandScope) (n : ℕ) (ids : List String) → combined_rank scope n ids ≤ 3
combined_rank-le scope n ids =
    omega (arith, rank-le (threshold_decision n), matrix_rank-le scope ids)

combined_rank_mono :
    (scope : CommandScope) (m n : ℕ) (xs ys : List String)
    → m ≤ n
    → Within xs ys
    → combined_rank scope m xs ≤ combined_rank scope n ys
combined_rank_mono scope m n xs ys h w =
    omega (arith, threshold_mono m n h, largest-Within (matrix_rank scope) xs ys w)

gate_mono :
    (scope : CommandScope) (a b p q : Bool) (m n : ℕ)
    → (a ≡ true → b ≡ true)
    → p ≡ false
    → q ≡ false
    → m ≤ n
    → n ≤ 3
    → gate a p scope m ≤ gate b q scope n
gate_mono scope a b p q m n h hp hq le top =
    rw (hp, hq) (ground (arith, soften_mono scope m n le top))

is_empty-append :
    (xs ys : List Finding) (b : Bool)
    → (is_empty xs && b) ≡ false
    → (is_empty (xs ++ ys) && b) ≡ false
is_empty-append [] ys b h = ground arith
is_empty-append (x ∷ xs) ys b h = refl

map-append_ids : (xs ys : List Finding) → rule_ids (xs ++ ys) ≡ rule_ids xs ++ rule_ids ys
map-append_ids xs ys = map-append _ xs ys

module _ (xs ys : List Finding) where
  ids-Within : Within (rule_ids xs) (rule_ids (xs ++ ys))
  ids-Within a m = rw (map-append_ids xs ys, contains-append) (ground arith)

  score-append : risk_score_of (xs ++ ys) ≡ risk_score_of xs + risk_score_of ys
  score-append = sum_by-append _ xs ys

  -- With further findings the specified decision is at least as strict.
  specified_rank_mono :
      (scope : CommandScope)
      → (is_empty xs && scope == unknown_shell) ≡ false
      → specified_rank xs scope ≤ specified_rank (xs ++ ys) scope
  specified_rank_mono scope h =
      gate_mono scope _ _ _ _ _ _ (any-Within is_hard_block _ _ ids-Within) h (still_known h)
        (combined_rank_mono scope (risk_score_of xs) (risk_score_of (xs ++ ys)) _ _
          (omega (arith, score-append)) ids-Within)
        (combined_rank-le scope (risk_score_of (xs ++ ys)) (rule_ids (xs ++ ys)))
    where
      still_known :
          (is_empty xs && scope == unknown_shell) ≡ false
          → (is_empty (xs ++ ys) && scope == unknown_shell) ≡ false
      still_known e = is_empty-append xs ys (scope == unknown_shell) e

-- More findings never make the gate milder, but for the warning that an unknown command without
-- findings gets: unless that is the case, the decision for `xs ++ ys` is at least that for `xs`.
pub evaluate_policy_mono :
    (xs ys : List Finding) (c : CommandClassification)
    → (is_empty xs && c.scope == unknown_shell) ≡ false
    → (evaluate_policy xs c).decision ⊑ (evaluate_policy (xs ++ ys) c).decision
evaluate_policy_mono xs ys c h = omega (
  arith,
  evaluate_policy-rank xs c,
  evaluate_policy-rank (xs ++ ys) c,
  specified_rank_mono xs ys c.scope h,
)
