-- ===== src/Policy/Explanation/Agreement.antt =====
-- The explanation names the branch of the engine that decided.
use Prim.Native.Nat.{max}
use codex_preflight.Base.{
  ℕ, ◌≤◌, ◌≡◌, refl, inl, inr, sym, ◌∙◌, String, Bool, true, false, ◌&&◌, Option, none, some, List,
  [], ◌∷◌, arith, ◌==◌, string_eq, Within, keep, any, any-eq_of_Within, largest,
  largest-eq_of_Within, Bool-cases, if◌then◌else◌, is_some,
}
use codex_preflight.Command.Scope.{
  CommandScope, CommandClassification, safe_readonly, unknown_shell, scope_eq,
}
use codex_preflight.Scanner.Finding.{Finding}
use codex_preflight.Policy.Decision.{
  Decision, PolicyResult, allow, warn, ask_user, block, eq_of_rank, decision_eq, decision_rank,
}
use codex_preflight.Policy.Matrix.{is_hard_block, minimum_decision_for}
use codex_preflight.Policy.Engine.{
  evaluate_over, evaluate_policy, conclude, apply_minimums, risk_score_of, is_empty,
  threshold_decision, plain_reason, policy_result, reason_for, hard_reason, unknown_reason,
  raise_to, distinct,
}
use codex_preflight.Policy.Engine.Loop.{
  matrix_rank, minimum_rank, apply_minimums-rank, raise_to-rank,
}
use codex_preflight.Policy.Engine.Order.{rule_ids, contains-distinct}
use codex_preflight.Policy.Explanation.{
  SelectionType, trust_approval, hard_block_rule, command_scope, scope_adjustment, policy_matrix,
  risk_score, no_gate, Selection, PolicyExplanation, select_soft, select_gate, matrix_minimum_of,
  build_policy_explanation, hard_rules, first, has_minimum, minimum_of, option_is,
}
use codex_preflight.Policy.Explanation.Groups.{
  explained_ids, contains-explained_ids, is_empty-explained_ids,
}

-- The reason that the engine gives where the explanation names this selector.
abbrev pub reason_of : SelectionType → Decision → String
reason_of trust_approval d = "Command allowed by matching scoped user approval."
reason_of hard_block_rule d = hard_reason
reason_of command_scope d = unknown_reason
reason_of scope_adjustment d =
    "Safe read-only command scope downgraded contextual user-review findings to warning."
reason_of policy_matrix d =
    "A policy matrix minimum applies to one or more findings for this command scope."
reason_of risk_score d = "Risk score threshold determines the policy decision."
reason_of no_gate d = plain_reason d

-- There is a selection, it carries the decision of the result, and its type fits the reason.
abbrev pub Selects : PolicyResult → Option Selection → Type 0
Selects p none = ⊥
Selects p (some s) = (p.reason ≡ reason_of s.type p.decision) × (s.decision ≡ p.decision)

-- Whether some rule has this minimum: then the list that `_selection` indexes is not empty.
first-keep_of_any :
    (p : String → Bool) (ids : List String)
    → any p ids ≡ true
    → (id : String) × (first (keep p ids) ≡ some id)
first-keep_of_any p [] h = cc
first-keep_of_any p (x ∷ ids) h = elim (Bool-cases (p x)) [
  | inl e ↦ (x, rw e refl)
  | inr e ↦ rw e (first-keep_of_any p ids (ground arith))
]

matrix_minimum_of-rank :
    (scope : CommandScope) (ids : List String) (m : Decision)
    → decision_rank (matrix_minimum_of scope ids m)
      ≡ max (decision_rank m) (largest (matrix_rank scope) ids)
unfolding matrix_minimum_of minimum_decision_for
matrix_minimum_of-rank scope [] m = omega arith
matrix_minimum_of-rank scope (x ∷ ids) m = omega (
  arith,
  raise_to-rank m (minimum_of scope x),
  matrix_minimum_of-rank scope ids (raise_to m (minimum_of scope x)),
)

rank_reached :
    (o : Option Decision) (d : Decision)
    → decision_rank d ≡ minimum_rank o
    → 1 ≤ decision_rank d
    → option_is d o ≡ true
rank_reached none d e h = absurd (omega arith)
rank_reached (some m) d e h = ground arith

minimum_reached :
    (scope : CommandScope) (ids : List String) (d : Decision)
    → decision_rank d ≡ largest (matrix_rank scope) ids
    → 1 ≤ decision_rank d
    → any (has_minimum scope d) ids ≡ true
unfolding minimum_decision_for
minimum_reached scope [] d e h = absurd (omega arith)
minimum_reached scope (x ∷ ids) d e h =
    ground (arith, rank_reached (minimum_of scope x) d, minimum_reached scope ids d)

abbrev downgrades : CommandScope → Decision → Bool
downgrades scope d = scope == safe_readonly && d == ask_user

abbrev known_result : CommandScope → ℕ → Decision → Decision → Decision → PolicyResult
known_result scope score t m d =
    let d' = if downgrades scope d then warn else d in
    policy_result d' score (reason_for d' t m (downgrades scope d))

select_soft-known :
    (ids : List String) (scope : CommandScope) (score : ℕ) (t m d : Decision)
    → (is_empty ids && scope == unknown_shell) ≡ false
    → decision_rank d ≡ max (decision_rank t) (decision_rank m)
    → (1 ≤ decision_rank m → is_some (first (keep (has_minimum scope m) ids)) ≡ true)
    → Selects
        (known_result scope score t m d)
        (select_soft ids scope (known_result scope score t m d) t m)
unfolding select_soft
select_soft-known ids scope score t m d known top named = rw known (ground arith)

-- The part behind the hard rules: `t` and `m` are the threshold and the matrix minimum, `d` their
-- maximum.
select_soft-conclude :
    (ids : List String) (findings : List Finding) (scope : CommandScope) (score : ℕ)
    (m d : Decision)
    → is_empty ids ≡ is_empty findings
    → decision_rank d ≡ max (decision_rank (threshold_decision score)) (decision_rank m)
    → (1 ≤ decision_rank m → is_some (first (keep (has_minimum scope m) ids)) ≡ true)
    → let p = conclude findings scope score (threshold_decision score) (m, d) in
      Selects p (select_soft ids scope p (threshold_decision p.risk_score) m)
unfolding conclude
select_soft-conclude ids findings scope score m d same top named =
    elim (Bool-cases (is_empty findings && scope == unknown_shell)) [
      | inl unknown ↦ rw unknown (unfold select_soft in rw (same, unknown) (refl, refl))
      | inr known ↦ rw known (
          select_soft-known ids scope score (threshold_decision score) m d (rw same known) top
            named)
    ]

first-hard_rules : (ids : List String) → is_some (first (hard_rules ids)) ≡ any is_hard_block ids
unfolding is_hard_block
first-hard_rules [] = refl
first-hard_rules (x ∷ ids) = ground (arith, first-hard_rules ids)

first-keep : (p : String → Bool) (ids : List String) → is_some (first (keep p ids)) ≡ any p ids
first-keep p [] = refl
first-keep p (x ∷ ids) = ground (arith, first-keep p ids)

select_gate-hard :
    (ids : List String) (scope : CommandScope) (score : ℕ) (t m : Decision)
    → is_some (first (hard_rules ids)) ≡ true
    → let p = policy_result block score hard_reason in Selects p (select_gate ids scope p t m false)
unfolding select_gate
select_gate-hard ids scope score t m h = ground arith

select_gate-soft :
    (ids : List String) (scope : CommandScope) (p : PolicyResult) (t m : Decision)
    → is_some (first (hard_rules ids)) ≡ false
    → select_gate ids scope p t m false ≡ select_soft ids scope p t m
unfolding select_gate
select_gate-soft ids scope p t m h = ground arith

module _ (ids xs : List String) (findings : List Finding) (c : CommandClassification) where
  -- The loop of the explanation reaches the matrix minimum of the engine's.
  minimum-agrees :
      (t : Decision)
      → Within ids xs
      → Within xs ids
      → matrix_minimum_of c.scope ids allow ≡ (apply_minimums c.scope xs allow t).0
  minimum-agrees t w v = eq_of_rank _ (apply_minimums c.scope xs allow t).0 (
      matrix_minimum_of-rank c.scope ids allow
      ∙ omega (
        arith,
        apply_minimums-rank c.scope xs allow t,
        largest-eq_of_Within (matrix_rank c.scope) ids xs w v,
      ))

  -- `_selection` at the result of `evaluate_over`, for ids with the same members.
  select_gate-evaluate_over :
      Within ids xs
      → Within xs ids
      → is_empty ids ≡ is_empty findings
      → let p = evaluate_over xs findings c in
        Selects p (
          select_gate ids c.scope p
            (threshold_decision p.risk_score)
            (matrix_minimum_of c.scope ids allow)
            false)
  unfolding evaluate_over
  select_gate-evaluate_over w v same =
      let score = risk_score_of findings in
      let t = threshold_decision score in
      let (m, d) = apply_minimums c.scope xs allow t in
      let ranks = apply_minimums-rank c.scope xs allow t in
      let hard = first-hard_rules ids ∙ any-eq_of_Within is_hard_block ids xs w v in
      elim (Bool-cases (any is_hard_block xs)) [
        | inl h ↦ rw h (select_gate-hard ids c.scope score _ _ (hard ∙ h))
        | inr h ↦
            rw (h, minimum-agrees t w v, select_gate-soft ids c.scope _ _ _ (hard ∙ h))
              (select_soft-conclude ids findings c.scope score m d same (omega (arith, ranks))
                (λ pos.
                  first-keep (has_minimum c.scope m) ids
                  ∙ minimum_reached c.scope ids m
                      (omega
                        (arith, ranks.0, largest-eq_of_Within (matrix_rank c.scope) ids xs w v))
                      pos))
      ]

-- `selectedBy` of an explanation
abbrev pub selected_by : Option PolicyExplanation → Option Selection
selected_by none = none
selected_by (some e) = some e.selected_by

selected_by-build :
    (findings : List Finding) (c : CommandClassification) (p : PolicyResult)
    → selected_by (build_policy_explanation findings c p false)
      ≡ select_gate
          (explained_ids findings)
          c.scope
          p
          (threshold_decision p.risk_score)
          (matrix_minimum_of c.scope (explained_ids findings) allow)
          false
unfolding build_policy_explanation
selected_by-build findings c p = ground arith

-- For the untrusted result of the engine the explanation exists (no index is out of range), its
-- selector is the one that the engine's reason speaks of, and its decision is the engine's.
pub explanation-Selects :
    (findings : List Finding) (c : CommandClassification)
    → let p = evaluate_policy findings c in
      Selects p (selected_by (build_policy_explanation findings c p false))
unfolding evaluate_policy
explanation-Selects findings c =
    let p = evaluate_policy findings c in
    let same = λ (a : String). contains-distinct (rule_ids findings) a in
    rw (selected_by-build findings c p) (
      select_gate-evaluate_over (explained_ids findings) (distinct (rule_ids findings)) findings c
        (λ a m. same a ∙ sym (contains-explained_ids findings a) ∙ m)
        (λ a m. contains-explained_ids findings a ∙ sym (same a) ∙ m)
        (is_empty-explained_ids findings))
