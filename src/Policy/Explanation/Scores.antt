-- ===== src/Policy/Explanation/Scores.antt =====
-- The contributions of the rules add up to the risk score of the findings.
use codex_preflight.Base.{
  map_option-eq-some, sym, ℕ, ◌+◌, ◌≡◌, refl, ◌∙◌, ap, String, Bool, true, List, [], ◌∷◌, map,
  arith, string_eq, contains, contains-cons_self, contains-cons_of, some, NoRepeats, sum_by,
  if◌then◌else◌,
}
use codex_preflight.Command.Scope.{CommandScope, CommandClassification}
use codex_preflight.Scanner.Finding.{Finding, severity_score}
use codex_preflight.Policy.Decision.{PolicyResult}
use codex_preflight.Policy.Engine.{risk_score_of}
use codex_preflight.Policy.Engine.Order.{rule_ids}
use codex_preflight.Policy.Explanation.{
  Selection, RuleContribution, rule_contribution, group_from, PolicyExplanation,
  build_policy_explanation,
}
use codex_preflight.Policy.Explanation.Groups.{
  of_rule, group_get-group, explained_ids, contains-explained_ids, explained_ids-NoRepeats,
}

-- the score of one rule's findings
abbrev rule_score : List Finding → String → ℕ
rule_score fs id = risk_score_of (of_rule id fs)

-- Adding a finding raises the score of its own rule, once.
sum-rule_score :
    (f : Finding) (fs : List Finding) (ids : List String)
    → NoRepeats ids
    → sum_by (rule_score (f ∷ fs)) ids
      ≡ (if contains ids f.rule_id then severity_score f.severity else 0)
        + sum_by (rule_score fs) ids
sum-rule_score f fs [] u = omega arith
sum-rule_score f fs (x ∷ ids) u =
    ground (arith, string_eq.beq_iff f.rule_id x, sum-rule_score f fs ids u.1)

sum-rule_score_nil : (ids : List String) → sum_by (rule_score []) ids ≡ 0
sum-rule_score_nil [] = refl
sum-rule_score_nil (x ∷ ids) = omega (arith, sum-rule_score_nil ids)

-- Over ids without repeats that cover the findings, the rules' scores add up to the whole score.
sum-rule_score_covering :
    (fs : List Finding) (ids : List String)
    → NoRepeats ids
    → ((a : String) → contains (rule_ids fs) a ≡ true → contains ids a ≡ true)
    → sum_by (rule_score fs) ids ≡ risk_score_of fs
sum-rule_score_covering [] ids u h = sum-rule_score_nil ids
sum-rule_score_covering (f ∷ fs) ids u h = ground (
  arith,
  sum-rule_score f fs ids u,
  h f.rule_id (contains-cons_self f.rule_id (rule_ids fs)),
  sum-rule_score_covering fs ids u (λ a m. h a (contains-cons_of a f.rule_id (rule_ids fs) m)),
)

contributions-score :
    (scope : CommandScope) (p : PolicyResult) (s : Selection) (fs : List Finding)
    (ids : List String)
    → sum_by
        (λ (r : RuleContribution). r.risk_score)
        (map (rule_contribution scope p s (group_from [] fs)) ids)
      ≡ sum_by (rule_score fs) ids
unfolding rule_contribution
contributions-score scope p s fs [] = refl
contributions-score scope p s fs (x ∷ ids) =
    omega (arith, ap risk_score_of (group_get-group x fs), contributions-score scope p s fs ids)

module _ (findings : List Finding) (c : CommandClassification) (p : PolicyResult) (trusted : Bool)
    (e : PolicyExplanation) (built : build_policy_explanation findings c p trusted ≡ some e) where
  contributions_built :
      (s : Selection) × (e.rule_contributions
        ≡ map (rule_contribution c.scope p s (group_from [] findings)) (explained_ids findings))
  unfolding build_policy_explanation
  contributions_built =
      let (s, found, same) = map_option-eq-some _ _ e built in
      (s, sym (ap (λ (x : PolicyExplanation). x.rule_contributions) same))

  -- The risk scores of the rule contributions of an explanation add up to that of the findings.
  pub contributions-risk_score :
      sum_by (λ (r : RuleContribution). r.risk_score) e.rule_contributions ≡ risk_score_of findings
  contributions-risk_score =
      let (s, same) = contributions_built in
      rw same (
        contributions-score c.scope p s findings (explained_ids findings)
        ∙ sum-rule_score_covering findings (explained_ids findings)
            (explained_ids-NoRepeats findings) (λ a m. contains-explained_ids findings a ∙ m))
