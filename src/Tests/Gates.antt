-- ===== src/Tests/Gates.antt =====
-- The policy gate and its explanation.
use mathlib.Core.List.{Permᴰ}
use codex_preflight.Base.{
  ◌≡◌, refl, [], ◌∷◌, ◌++◌, codes, arith, true, false, ◌<◌, ◌≤◌, String, sum_by, any, sorted, ◌↔◌,
  ◌⊎◌, ◌&&◌, ◌==◌, Option, none, some,
}
use codex_preflight.Command.Scope.{
  CommandClassification, safe_readonly, script_execution, unknown_shell, scope_eq,
}
use codex_preflight.Scanner.Finding.{Finding, Severity, critical, medium, info}
use codex_preflight.Policy.Decision.{block, allow, warn, decision_rank, ◌⊑◌}
use codex_preflight.Policy.Matrix.{is_hard_block, matrix_get, minimum_decision_for}
use codex_preflight.Policy.Engine.{evaluate_policy, evaluate_over, risk_score_of, is_empty}
use codex_preflight.Policy.Engine.Order.{
  rule_ids, evaluate_over-evaluate_policy, evaluate_policy-Perm,
}
use codex_preflight.Policy.Engine.Gate.{specified_rank, evaluate_policy-rank, evaluate_policy_mono}
use codex_preflight.Policy.Engine.Verdict.{
  any_minimum, evaluate_policy-block_iff, evaluate_policy-allow_iff,
}
use codex_preflight.Policy.Explanation.{
  no_gate, PolicyExplanation, RuleContribution, build_policy_explanation,
}
use codex_preflight.Policy.Explanation.Agreement.{Selects, selected_by, explanation-Selects}
use codex_preflight.Policy.Explanation.Scores.{contributions-risk_score}

abbrev finding_of : String → Severity → Finding
finding_of rule_id severity = record {
  rule_id = rule_id;
  severity = severity;
  title = "";
  file = "run.sh";
  line = 1;
  evidence = "";
  why_it_matters = "";
  recommendation = "";
}

abbrev script_run : CommandClassification
script_run = record { raw = codes "bash run.sh"; scope = script_execution; reason = [] }

abbrev key_finding : Finding
key_finding = finding_of "SECRET_PRIVATE_KEY" critical

abbrev other_finding : Finding
other_finding = finding_of "OTHER" medium

evaluate_policy-rank_example :
    decision_rank (evaluate_policy (key_finding ∷ []) script_run).decision
    ≡ specified_rank (key_finding ∷ []) script_execution
evaluate_policy-rank_example = evaluate_policy-rank (key_finding ∷ []) script_run

evaluate_policy_mono_example :
    (evaluate_policy (other_finding ∷ []) script_run).decision
    ⊑ (evaluate_policy ((other_finding ∷ []) ++ (key_finding ∷ [])) script_run).decision
evaluate_policy_mono_example =
    evaluate_policy_mono (other_finding ∷ []) (key_finding ∷ []) script_run refl

block_iff_example : ((evaluate_policy (key_finding ∷ []) script_run).decision ≡ block) ↔ (
    (any is_hard_block (rule_ids (key_finding ∷ [])) ≡ true)
    ⊎ (74 < risk_score_of (key_finding ∷ [])))
block_iff_example = evaluate_policy-block_iff (key_finding ∷ []) script_run

allow_iff_example : ((evaluate_policy (other_finding ∷ []) script_run).decision ≡ allow) ↔ (
    (any_minimum script_execution (rule_ids (other_finding ∷ [])) ≡ false)
    × ((is_empty (other_finding ∷ []) && script_execution == unknown_shell) ≡ false)
    × (risk_score_of (other_finding ∷ []) ≤ 9))
allow_iff_example = evaluate_policy-allow_iff (other_finding ∷ []) script_run

evaluate_over_example :
    evaluate_over
      ("SECRET_PRIVATE_KEY" ∷ "OTHER" ∷ [])
      (other_finding ∷ key_finding ∷ [])
      script_run
    ≡ evaluate_policy (other_finding ∷ key_finding ∷ []) script_run
evaluate_over_example =
    evaluate_over-evaluate_policy ("SECRET_PRIVATE_KEY" ∷ "OTHER" ∷ [])
      (other_finding ∷ key_finding ∷ []) script_run (λ a m. ground (arith, m))
      (λ a m. ground (arith, m))

evaluate_policy-Perm_example :
    evaluate_policy (other_finding ∷ key_finding ∷ []) script_run
    ≡ evaluate_policy (key_finding ∷ other_finding ∷ []) script_run
evaluate_policy-Perm_example =
    evaluate_policy-Perm (other_finding ∷ key_finding ∷ []) (key_finding ∷ other_finding ∷ [])
      script_run ∣ Permᴰ.swap refl refl ∣₁

explanation-Selects_example : Selects (evaluate_policy (key_finding ∷ []) script_run) (
    selected_by (
      build_policy_explanation
        (key_finding ∷ [])
        script_run
        (evaluate_policy (key_finding ∷ []) script_run)
        false))
explanation-Selects_example = explanation-Selects (key_finding ∷ []) script_run

abbrev read_run : CommandClassification
read_run = record { raw = codes "ls"; scope = safe_readonly; reason = [] }

-- An unknown command without findings warns, one with a finding of no weight is let through.
unknown_run_warns :
    (evaluate_policy [] (record { raw = codes "x"; scope = unknown_shell; reason = [] })).decision
    ≡ warn
unfolding evaluate_policy
unknown_run_warns = refl

unknown_run_allowed :
    (evaluate_policy
      (finding_of "OTHER" info ∷ [])
      (record { raw = codes "x"; scope = unknown_shell; reason = [] })).decision
    ≡ allow
unfolding evaluate_policy is_hard_block matrix_get minimum_decision_for
unknown_run_allowed = refl

abbrev explained_or : Option PolicyExplanation → PolicyExplanation
explained_or (some e) = e
explained_or none = record {
  final_decision = allow;
  command_scope = safe_readonly;
  selected_by = record { type = no_gate; decision = allow; rule_id = none };
  command_risk_score = 0;
  command_minimum = allow;
  command_affected = false;
  rule_contributions = [];
}

-- The explanation of two findings under two rules.
abbrev explained : PolicyExplanation
explained = explained_or (
    build_policy_explanation (other_finding ∷ key_finding ∷ []) script_run
      (evaluate_policy (other_finding ∷ key_finding ∷ []) script_run) false)

explained_exists :
    build_policy_explanation
      (other_finding ∷ key_finding ∷ [])
      script_run
      (evaluate_policy (other_finding ∷ key_finding ∷ []) script_run)
      false
    ≡ some explained
unfolding build_policy_explanation sorted matrix_get
explained_exists = refl

contributions_example :
    sum_by (λ (r : RuleContribution). r.risk_score) explained.rule_contributions
    ≡ risk_score_of (other_finding ∷ key_finding ∷ [])
contributions_example =
    contributions-risk_score (other_finding ∷ key_finding ∷ []) script_run
      (evaluate_policy (other_finding ∷ key_finding ∷ []) script_run) false explained
      explained_exists
