-- ===== src/Policy/Explanation.antt =====
-- policy/explanation.py: which rule or score selected the decision.
mod Groups
pub mod Agreement
pub mod Scores
use codex_preflight.Base.{
  ℕ, ◌≤◌, String, Bool, true, false, not, ◌&&◌, ◌||◌, Option, none, some, List, [], ◌∷◌, ◌++◌, map,
  ◌==◌, string_eq, keep, length, leb, ltb, sorted, map_option, if◌then◌else◌,
}
use codex_preflight.Command.Scope.{
  CommandScope, CommandClassification, safe_readonly, unknown_shell, scope_eq,
}
use codex_preflight.Scanner.Finding.{Finding, severity_score}
use codex_preflight.Policy.Decision.{
  Decision, allow, warn, ask_user, block, decision_eq, decision_rank, max_decision, PolicyResult,
}
use codex_preflight.Policy.Matrix.{PolicyMatrixEntry, matrix_get, entry_minimum, entry_hard}
use codex_preflight.Policy.Engine.{risk_score_of, threshold_decision, raise_to, is_empty}

-- the values of `selectedBy.type`
pub data SelectionType : Type 0 where
  trust_approval hard_block_rule command_scope scope_adjustment : SelectionType
  policy_matrix risk_score no_gate : SelectionType

pub record Selection : Type 0 where
  pub type : SelectionType
  pub decision : Decision
  pub rule_id : Option String

pub record RuleContribution : Type 0 where
  pub rule_id : String
  pub finding_count : ℕ
  pub risk_score : ℕ
  pub matrix_matched : Bool
  pub minimum_decision : Option Decision
  pub hard_block : Bool
  pub rationale : Option String
  pub affected_final_gate : Bool
  pub report_only : Bool

pub record PolicyExplanation : Type 0 where
  pub final_decision : Decision
  pub command_scope : CommandScope
  pub selected_by : Selection
  pub command_risk_score : ℕ
  pub command_minimum : Decision
  pub command_affected : Bool
  pub rule_contributions : List RuleContribution

-- `grouped`: a dict from rule id to its findings, in insertion order
abbrev pub Groups : Type 0
Groups = List (String × List Finding)

-- `grouped[finding.rule_id].append(finding)` on a `defaultdict(list)`
unfoldable pub add_finding : Finding → Groups → Groups
add_finding f [] = (f.rule_id, f ∷ []) ∷ []
add_finding f ((k, fs) ∷ rest) =
    if k == f.rule_id then (k, fs ++ (f ∷ [])) ∷ rest else (k, fs) ∷ add_finding f rest

unfoldable pub group_from : Groups → List Finding → Groups
unfolding add_finding
group_from groups [] = groups
group_from groups (f ∷ fs) = group_from (add_finding f groups) fs

-- `grouped[rule_id]`
unfoldable pub group_get : String → Groups → List Finding
group_get k [] = []
group_get k ((j, fs) ∷ rest) = if j == k then fs else group_get k rest

abbrev pub group_keys : Groups → List String
group_keys = map (λ g. g.0)

abbrev pub minimum_of : CommandScope → String → Option Decision
minimum_of scope rule_id = entry_minimum scope (matrix_get rule_id)

-- the loop that fills `minimums` and raises `matrix_minimum`
unfoldable pub matrix_minimum_of : CommandScope → List String → Decision → Decision
matrix_minimum_of scope [] m = m
matrix_minimum_of scope (rule_id ∷ ids) m =
    matrix_minimum_of scope ids (raise_to m (minimum_of scope rule_id))

-- `[…][0]`, which raises an `IndexError` on the empty list
abbrev pub first {ℓ} : {A : Type ℓ} → List A → Option A
first [] = none
first (x ∷ xs) = some x

abbrev pub selection : SelectionType → PolicyResult → Option String → Selection
selection type policy rule_id = record {
  type = type;
  decision = policy.decision;
  rule_id = rule_id;
}

abbrev pub hard_rules : List String → List String
hard_rules = keep (λ id. entry_hard (matrix_get id))

abbrev pub option_is : Decision → Option Decision → Bool
option_is d none = false
option_is d (some m) = m == d

-- `minimum == matrix_minimum`
abbrev pub has_minimum : CommandScope → Decision → String → Bool
has_minimum scope d id = option_is d (minimum_of scope id)

abbrev pub name_rule : PolicyResult → Option String → Option Selection
name_rule policy none = none
name_rule policy (some id) = some (selection policy_matrix policy (some id))

-- the part of `_selection` behind the hard rules
unfoldable pub select_soft :
    List String → CommandScope → PolicyResult → Decision → Decision → Option Selection
select_soft ids scope policy threshold matrix_minimum =
    if is_empty ids && scope == unknown_shell
    then some (selection command_scope policy none)
    else if scope == safe_readonly && max_decision (threshold ∷ matrix_minimum ∷ []) == ask_user
    then some (selection scope_adjustment policy none)
    else if not (matrix_minimum == allow) && policy.decision == matrix_minimum
    then name_rule policy (first (keep (has_minimum scope matrix_minimum) ids))
    else if not (threshold == allow) && policy.decision == threshold
    then some (selection risk_score policy none)
    else some (selection no_gate policy none)

-- `_selection`; `none` is an `IndexError`. The ids are the sorted keys of `grouped`.
unfoldable pub select_gate :
    List String → CommandScope → PolicyResult → Decision → Decision → Bool → Option Selection
unfolding select_soft
select_gate ids scope policy threshold matrix_minimum trusted =
    if trusted then some (selection trust_approval policy none) else elim (first (hard_rules ids)) [
      | some id ↦ some (record { type = hard_block_rule; decision = block; rule_id = some id })
      | none ↦ select_soft ids scope policy threshold matrix_minimum
    ]

abbrev pub at_least_warn : Option Decision → Bool
at_least_warn none = false
at_least_warn (some d) = leb (decision_rank warn) (decision_rank d)

-- the ladder on `selected_type` in `_rule_contribution`
abbrev pub affected_gate : SelectionType → ℕ → Bool → Option Decision → Decision → Bool
affected_gate hard_block_rule score hard minimum decision = hard
affected_gate policy_matrix score hard minimum decision = option_is decision minimum
affected_gate risk_score score hard minimum decision = ltb 0 score
affected_gate scope_adjustment score hard minimum decision = ltb 0 score || at_least_warn minimum
affected_gate _ score hard minimum decision = false

abbrev pub entry_rationale : Option PolicyMatrixEntry → Option String
entry_rationale none = none
entry_rationale (some e) = some e.rationale

abbrev pub is_matched : Option PolicyMatrixEntry → Bool
is_matched none = false
is_matched (some e) = true

-- `_rule_contribution`
unfoldable pub rule_contribution :
    CommandScope → PolicyResult → Selection → Groups → String → RuleContribution
rule_contribution scope policy selected groups rule_id =
    let findings = group_get rule_id groups in
    let score = risk_score_of findings in
    let entry = matrix_get rule_id in
    let minimum = entry_minimum scope entry in
    let affected = affected_gate selected.type score (entry_hard entry) minimum policy.decision in
    record {
      rule_id = rule_id;
      finding_count = length findings;
      risk_score = score;
      matrix_matched = is_matched entry;
      minimum_decision = minimum;
      hard_block = entry_hard entry;
      rationale = entry_rationale entry;
      affected_final_gate = affected;
      report_only = not affected;
    }

abbrev pub command_affects : SelectionType → Bool
command_affects command_scope = true
command_affects risk_score = true
command_affects scope_adjustment = true
command_affects _ = false

unfoldable pub build_policy_explanation :
    List Finding → CommandClassification → PolicyResult → Bool → Option PolicyExplanation
unfolding select_gate matrix_minimum_of group_from rule_contribution
build_policy_explanation findings c policy trusted =
    let groups = group_from [] findings in
    let ids = sorted (group_keys groups) in
    let threshold = threshold_decision policy.risk_score in
    let matrix_minimum = matrix_minimum_of c.scope ids allow in
    map_option
      (λ selected. record {
        final_decision = policy.decision;
        command_scope = c.scope;
        selected_by = selected;
        command_risk_score = policy.risk_score;
        command_minimum = threshold;
        command_affected = command_affects selected.type;
        rule_contributions = map (rule_contribution c.scope policy selected groups) ids;
      })
      (select_gate ids c.scope policy threshold matrix_minimum trusted)
