-- ===== src/Reachability/Uncertainty.antt =====
-- codex_preflight_core/reachability/uncertainty.py: what could not be followed. A reason's text is
-- left out but for what it names.
use codex_preflight.Base.{Option, none, some, String}
use codex_preflight.Scanner.Finding.{Severity, medium, high}

pub record Uncertainty : Type 0 where
  pub rule_id : String
  pub severity : Severity
  pub subject : Option String
  pub file : Option String

abbrev pub missing_target : String → Option String → Uncertainty
missing_target target file = record {
  rule_id = "SCRIPT_TARGET_MISSING";
  severity = medium;
  subject = some target;
  file = file;
}

abbrev pub outside_repo : String → Option String → Uncertainty
outside_repo target file = record {
  rule_id = "SCRIPT_TARGET_OUTSIDE_REPO";
  severity = medium;
  subject = some target;
  file = file;
}

abbrev pub parse_uncertain : Option String → Option String → Uncertainty
parse_uncertain subject file = record {
  rule_id = "SCRIPT_PARSE_UNCERTAIN";
  severity = medium;
  subject = subject;
  file = file;
}

abbrev pub chain_depth_exceeded : Option String → Uncertainty
chain_depth_exceeded file = record {
  rule_id = "SCRIPT_CHAIN_DEPTH_EXCEEDED";
  severity = high;
  subject = none;
  file = file;
}

abbrev pub node_budget_exceeded : String → Option String → Uncertainty
node_budget_exceeded pending_label file = record {
  rule_id = "SCRIPT_NODE_BUDGET_EXCEEDED";
  severity = high;
  subject = some pending_label;
  file = file;
}

abbrev pub dynamic_module_reference : Option String → Uncertainty
dynamic_module_reference file = record {
  rule_id = "SCRIPT_DYNAMIC_MODULE_REFERENCE";
  severity = high;
  subject = none;
  file = file;
}
