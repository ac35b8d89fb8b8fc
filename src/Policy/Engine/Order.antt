-- ===== src/Policy/Engine/Order.antt =====
-- The result does not depend on the order of the findings, nor on that of the set of rule ids.
use mathlib.Core.List.{Perm, Permᴰ}
use mathlib.Core.HLevel.{prop→set}
use text.Mathlib.TextEquality.{IsScalar-prop}
use mathlib.Core.Logic.{∥∥₁_elim}
use codex_preflight.Base.{
  ℕ, ◌≡◌, refl, sym, ◌∙◌, ap, String, List, [], ◌∷◌, map, arith, string_eq, contains, Within,
  any-eq_of_Within, largest-eq_of_Within, sum_by,
}
use codex_preflight.Command.Scope.{CommandScope, CommandClassification}
use codex_preflight.Scanner.Finding.{Finding}
use codex_preflight.Policy.Decision.{Decision, PolicyResult, allow, eq_of_rank}
use codex_preflight.Policy.Matrix.{is_hard_block}
use codex_preflight.Policy.Engine.{
  distinct, apply_minimums, evaluate_over, evaluate_policy, risk_score_of, is_empty,
}
use codex_preflight.Policy.Engine.Loop.{matrix_rank, apply_minimums-rank}

abbrev pub rule_ids : List Finding → List String
rule_ids = map (λ f. f.rule_id)

pub contains-distinct : (xs : List String) (a : String) → contains (distinct xs) a ≡ contains xs a
unfolding distinct
contains-distinct [] a = refl
contains-distinct (x ∷ xs) a =
    ground (arith, contains-distinct xs a, contains-distinct xs x, string_eq.beq_iff a x)

-- Two lists with the same members leave the loop in the same state.
apply_minimums-Within :
    (scope : CommandScope) (xs ys : List String) (m d : Decision)
    → Within xs ys
    → Within ys xs
    → apply_minimums scope xs m d ≡ apply_minimums scope ys m d
apply_minimums-Within scope xs ys m d w v =
    let same = largest-eq_of_Within (matrix_rank scope) xs ys w v in
    let left = apply_minimums-rank scope xs m d in
    let right = apply_minimums-rank scope ys m d in
    let low = eq_of_rank p.0 q.0 (omega (arith, left.0, right.0, same)) in
    let high = eq_of_rank p.1 q.1 (omega (arith, left.1, right.1, same)) in λ i. (low i, high i)
  where
    p : Decision × Decision
    p = apply_minimums scope xs m d

    q : Decision × Decision
    q = apply_minimums scope ys m d

evaluate_over-Within :
    (xs ys : List String) (findings : List Finding) (c : CommandClassification)
    → Within xs ys
    → Within ys xs
    → evaluate_over xs findings c ≡ evaluate_over ys findings c
unfolding evaluate_over
evaluate_over-Within xs ys findings c w v =
    rw (any-eq_of_Within is_hard_block xs ys w v, apply_minimums-Within c.scope xs ys allow _ w v)
      refl

-- Every order in which Python may walk the set of rule ids gives the same result.
pub evaluate_over-evaluate_policy :
    (ids : List String) (findings : List Finding) (c : CommandClassification)
    → Within ids (rule_ids findings)
    → Within (rule_ids findings) ids
    → evaluate_over ids findings c ≡ evaluate_policy findings c
unfolding evaluate_policy
evaluate_over-evaluate_policy ids findings c w v =
    evaluate_over-Within ids (distinct (rule_ids findings)) findings c
      (λ a m. contains-distinct (rule_ids findings) a ∙ w a m)
      (λ a m. v a (sym (contains-distinct (rule_ids findings) a) ∙ m))

module _ {ℓ} {A : Type ℓ} where
  sum_by-Permᴰ : (f : A → ℕ) {xs ys : List A} → Permᴰ xs ys → sum_by f xs ≡ sum_by f ys
  sum_by-Permᴰ f Permᴰ.nil = refl
  sum_by-Permᴰ f (Permᴰ.cons e p) = omega (arith, ap f e, sum_by-Permᴰ f p)
  sum_by-Permᴰ f (Permᴰ.swap d e) = omega (arith, ap f d, ap f e)
  sum_by-Permᴰ f (Permᴰ.trans p q) = sum_by-Permᴰ f p ∙ sum_by-Permᴰ f q

  is_empty-Permᴰ : {xs ys : List A} → Permᴰ xs ys → is_empty xs ≡ is_empty ys
  is_empty-Permᴰ Permᴰ.nil = refl
  is_empty-Permᴰ (Permᴰ.cons e p) = refl
  is_empty-Permᴰ (Permᴰ.swap d e) = refl
  is_empty-Permᴰ (Permᴰ.trans p q) = is_empty-Permᴰ p ∙ is_empty-Permᴰ q

contains-Permᴰ :
    (a : String) {xs ys : List Finding}
    → Permᴰ xs ys
    → contains (rule_ids xs) a ≡ contains (rule_ids ys) a
contains-Permᴰ a Permᴰ.nil = refl
contains-Permᴰ a (Permᴰ.cons e p) = rw (ap (λ (f : Finding). f.rule_id) e, contains-Permᴰ a p)
contains-Permᴰ a (Permᴰ.swap d e) =
    let u = ap (λ (f : Finding). f.rule_id) d in
    let v = ap (λ (f : Finding). f.rule_id) e in rw (u, v) (ground arith)
contains-Permᴰ a (Permᴰ.trans p q) = contains-Permᴰ a p ∙ contains-Permᴰ a q

-- Beside the rule ids, the findings count only by their score and by being there at all.
evaluate_over-findings :
    (ids : List String) (xs ys : List Finding) (c : CommandClassification)
    → risk_score_of xs ≡ risk_score_of ys
    → is_empty xs ≡ is_empty ys
    → evaluate_over ids xs c ≡ evaluate_over ids ys c
unfolding evaluate_over
evaluate_over-findings ids xs ys c s e = rw (s, e) refl

PolicyResult-set : IsSet PolicyResult
PolicyResult-set = hlevel (λ (n : ℕ). prop→set (IsScalar-prop n))

evaluate_policy-Permᴰ :
    (xs ys : List Finding) (c : CommandClassification)
    → Permᴰ xs ys
    → evaluate_policy xs c ≡ evaluate_policy ys c
evaluate_policy-Permᴰ xs ys c p =
    sym (
      evaluate_over-evaluate_policy (rule_ids ys) xs c (λ a m. contains-Permᴰ a p ∙ m)
        (λ a m. sym (contains-Permᴰ a p) ∙ m))
    ∙ evaluate_over-findings (rule_ids ys) xs ys c (sum_by-Permᴰ _ p) (is_empty-Permᴰ p)
    ∙ evaluate_over-evaluate_policy (rule_ids ys) ys c (λ a m. m) (λ a m. m)

-- Reordering the findings changes neither the decision nor the score, the reason or the instruction.
pub evaluate_policy-Perm :
    (xs ys : List Finding) (c : CommandClassification)
    → Perm xs ys
    → evaluate_policy xs c ≡ evaluate_policy ys c
evaluate_policy-Perm xs ys c p = ∥∥₁_elim p (PolicyResult-set _ _) (evaluate_policy-Permᴰ xs ys c)
