-- ===== src/Tests/Reached.antt =====
-- A script that calls itself and a script that is not there.
use codex_preflight.Base.{
  ◌<◌, ◌≡◌, ◌⊎◌, refl, arith, true, false, none, some, String, [], ◌∷◌, ◌==◌, string_eq, any,
  length, if◌then◌else◌,
}
use codex_preflight.Reachability.Graph.{
  Node, Graph, report, has_budget, exhaust, link, visit, add_capabilities, max_chain_depth,
}
use codex_preflight.Reachability.Files.{
  Reference, Tree, Contents, missing, local_file, missing_module, follow_target, scan_file,
}
use codex_preflight.Reachability.Files.Valid.{IsValid, is_budget_report, follow_target-IsValid}
use codex_preflight.Reachability.Files.Reported.{traces, follow_target-traces}

abbrev run_contents : Contents String
run_contents = record {
  capabilities = "eval" ∷ [];
  is_node_module = false;
  has_dynamic_reference = false;
  module_references = [];
  line_references =
      (record { target = "run.sh"; reason = "again" })
      ∷ (record { target = "gone.sh"; reason = "" })
      ∷ [];
}

abbrev scripts : Tree String
scripts = record {
  locate = λ base fallback target. if target == "run.sh" then local_file "run.sh" else missing;
  locate_module = λ base target. missing_module;
  parent_of = λ relative. ".";
  reading = λ relative. if relative == "run.sh" then some run_contents else none;
}

abbrev entry : Node
entry = record { number = 1; node_type = "command"; label = "sh run.sh"; file = none }

abbrev start : Graph String
start = record {
  nodes = entry ∷ [];
  edges = [];
  capabilities = [];
  uncertainties = [];
  visited = [];
  exhausted = false;
}

abbrev run_reference : Reference
run_reference = record { target = "run.sh"; reason = "command target" }

abbrev reached : Graph String
reached = follow_target scripts max_chain_depth entry "." none run_reference start

start-IsValid : IsValid start
start-IsValid = record {
  bounded = omega arith;
  numbered = (refl, tt);
  within = tt;
  distinct = tt;
  told = refl;
}

-- The file is scanned once, though it is reached twice.
reached-capabilities : reached.capabilities ≡ "eval" ∷ []
unfolding follow_target scan_file report has_budget exhaust link visit add_capabilities
reached-capabilities = refl

reached-size : length reached.nodes ≡ 3
unfolding follow_target scan_file report has_budget exhaust link visit add_capabilities
reached-size = refl

follow_target-IsValid_example : IsValid reached
follow_target-IsValid_example =
    follow_target-IsValid scripts max_chain_depth entry "." none run_reference start (omega arith)
      (omega arith) start-IsValid

follow_target-traces_example :
    (any is_budget_report reached.uncertainties ≡ true) ⊎ (traces start < traces reached)
follow_target-traces_example =
    follow_target-traces scripts max_chain_depth entry "." none run_reference start (omega arith)
      (omega arith) start-IsValid
