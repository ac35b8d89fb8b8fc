-- ===== src/Policy/Engine.antt =====
-- policy/engine.py: `evaluate_policy` and its helpers.
pub mod Loop
pub mod Order
pub mod Gate
pub mod Verdict
use Prim.Native.Nat.{max}
use codex_preflight.Base.{
  ℕ, String, Bool, true, false, not, ◌&&◌, Option, none, some, List, [], ◌∷◌, map, ◌==◌, contains,
  string_eq, any, sum_by, leb, if◌then◌else◌,
}
use codex_preflight.Command.Scope.{
  CommandScope, CommandClassification, safe_readonly, unknown_shell, scope_eq,
}
use codex_preflight.Scanner.Finding.{Finding, severity_score}
use codex_preflight.Policy.Decision.{
  Decision, allow, warn, ask_user, block, decision_eq, max_decision, PolicyResult,
}
use codex_preflight.Policy.Matrix.{minimum_decision_for, is_hard_block}

abbrev pub risk_score_of : List Finding → ℕ
risk_score_of = sum_by (λ f. severity_score f.severity)

-- `{finding.rule_id for finding in findings}`, in the order of first occurrence. Python's order of
-- iteration is arbitrary: `evaluate_over` takes the order as an argument.
unfoldable pub distinct : List String → List String
distinct [] = []
distinct (x ∷ xs) = let rest = distinct xs in if contains rest x then rest else x ∷ rest

-- `_threshold_decision`
abbrev pub threshold_decision : ℕ → Decision
threshold_decision score =
    if leb score 9
    then allow
    else if leb score 24
    then warn
    else if leb score 74
    then ask_user
    else block

-- the dict of `_reason`
abbrev pub plain_reason : Decision → String
plain_reason allow = "No relevant static risk findings were detected."
plain_reason warn = "Low or contextual risks were detected."
plain_reason ask_user = "The command should not run automatically without user review."
plain_reason block = "A critical finding blocks automatic execution."

-- `_reason`
abbrev pub reason_for : Decision → Decision → Decision → Bool → String
reason_for decision threshold matrix_minimum downgraded =
    if downgraded
    then "Safe read-only command scope downgraded contextual user-review findings to warning."
    else if decision == matrix_minimum && not (matrix_minimum == allow)
    then "A policy matrix minimum applies to one or more findings for this command scope."
    else if decision == threshold && not (threshold == allow)
    then "Risk score threshold determines the policy decision."
    else plain_reason decision

-- the dict of `_result`
abbrev pub instruction : Decision → String
instruction allow = "Proceed normally."
instruction warn = "Summarize the warning briefly before proceeding."
instruction ask_user = "Do not execute the command yet. Summarize findings and ask the user."
instruction block = "Do not execute the command. Explain the blocking finding."

-- `_result`
abbrev pub policy_result : Decision → ℕ → String → PolicyResult
policy_result decision score reason = record {
  decision = decision;
  risk_score = score;
  reason = reason;
  agent_instruction = instruction decision;
}

abbrev pub raise_to : Decision → Option Decision → Decision
raise_to d none = d
raise_to d (some minimum) = max_decision (d ∷ minimum ∷ [])

-- The loop over the rule ids, on `(matrix_minimum, decision)`.
unfoldable pub apply_minimums :
    CommandScope → List String → Decision → Decision → Decision × Decision
apply_minimums scope [] matrix_minimum decision = (matrix_minimum, decision)
apply_minimums scope (rule_id ∷ ids) matrix_minimum decision =
    let minimum = minimum_decision_for rule_id scope in
    apply_minimums scope ids (raise_to matrix_minimum minimum) (raise_to decision minimum)

abbrev pub is_empty {ℓ} : {A : Type ℓ} → List A → Bool
is_empty [] = true
is_empty (_ ∷ _) = false

abbrev pub hard_reason : String
hard_reason = "A hard-blocking finding was detected."

abbrev pub unknown_reason : String
unknown_reason = "Unknown shell command without static findings requires caution."

-- The part of `evaluate_policy` behind the loop.
unfoldable pub conclude :
    List Finding → CommandScope → ℕ → Decision → Decision × Decision → PolicyResult
conclude findings scope risk_score threshold (matrix_minimum, decision) =
    let downgraded = scope == safe_readonly && decision == ask_user in
    let decision' = if downgraded then warn else decision in
    if is_empty findings && scope == unknown_shell
    then policy_result warn (max risk_score 10) unknown_reason
    else policy_result decision' risk_score
        (reason_for decision' threshold matrix_minimum downgraded)

-- `evaluate_policy`, for one order of iteration over the set of rule ids.
unfoldable pub evaluate_over : List String → List Finding → CommandClassification → PolicyResult
unfolding conclude apply_minimums
evaluate_over rule_ids findings c =
    let risk_score = risk_score_of findings in
    let threshold = threshold_decision risk_score in
    if any is_hard_block rule_ids
    then policy_result block risk_score hard_reason
    else conclude findings c.scope risk_score threshold
        (apply_minimums c.scope rule_ids allow threshold)

unfoldable pub evaluate_policy : List Finding → CommandClassification → PolicyResult
unfolding evaluate_over distinct
evaluate_policy findings c = evaluate_over (distinct (map (λ f. f.rule_id) findings)) findings c
