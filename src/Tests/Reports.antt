-- ===== src/Tests/Reports.antt =====
-- The scan cache and the findings that reach the gate.
use codex_preflight.Base.{
  ◌≡◌, true, ◌&&◌, not, none, some, String, List, [], ◌∷◌, ◌==◌, string_eq, false, refl, contains,
  if◌then◌else◌,
}
use codex_preflight.Scanner.Finding.{Finding, high}
use codex_preflight.Policy.Decision.{Decision, warn, block}
use codex_preflight.Cache.ScanCache.{
  CacheKey, is_cacheable, cached_report, store_report, cached_report-store_report,
}
use codex_preflight.Preflight.{direct_shell_downloads, dedupe_findings, dedupe_loop}
use codex_preflight.Command.Classifier.{classify_command}
use codex_preflight.Policy.Engine.{evaluate_policy}
use codex_preflight.Policy.Matrix.{is_hard_block, matrix_get}
use codex_preflight.Preflight.Run.{
  Environment, all_findings, run_preflight, run_preflight-evaluate_policy,
}
use codex_preflight.Preflight.Deduped.{has_key, no_repeats, dedupe_findings-has_key}

abbrev scan_key : CacheKey
scan_key = record {
  repo_id = "repo";
  head_commit = none;
  critical_fingerprint = "f";
  command_scope = "build";
  policy_version = "p";
  ruleset_version = "r";
  report_format_version = "v";
}

cached_report_example :
    cached_report
      (λ (d : Decision). d)
      scan_key
      (store_report (λ (d : Decision). d) scan_key warn ((scan_key, block) ∷ []))
    ≡ (if is_cacheable warn
        then some warn
        else cached_report (λ (d : Decision). d) scan_key ((scan_key, block) ∷ []))
cached_report_example =
    cached_report-store_report (λ (d : Decision). d) scan_key warn ((scan_key, block) ∷ [])

abbrev curl : String
curl = "SHELL_CURL_PIPE_BASH"

abbrev download : Finding
download = record {
  rule_id = "SHELL_CURL_PIPE_BASH";
  severity = high;
  title = "";
  file = "run.sh";
  line = 1;
  evidence = "";
  why_it_matters = "";
  recommendation = "";
}

abbrev three_findings : List Finding
three_findings =
    download ∷ download ∷ record download { rule_id = "SHELL_DOWNLOAD_CAPABILITY" } ∷ []

dedupe_findings_example :
    (no_repeats (dedupe_findings three_findings) ≡ true)
    × (has_key curl "run.sh" (dedupe_findings three_findings) ≡ (
        not (
          curl == "SHELL_DOWNLOAD_CAPABILITY"
          && contains (direct_shell_downloads three_findings) "run.sh")
        && has_key curl "run.sh" three_findings))
dedupe_findings_example = dedupe_findings-has_key three_findings curl "run.sh"

-- A repository with a private key, run without caches and approvals.
abbrev key_environment : Environment
key_environment = record {
  command_findings = [];
  repository_findings = record download { rule_id = "SECRET_PRIVATE_KEY" } ∷ [];
  graph_findings = [];
  trust_match = true;
  cache_readable = true;
  cache_writable = true;
}

run_preflight_example :
    ((run_preflight key_environment scan_key [] true false []).0.policy
      ≡ evaluate_policy (all_findings key_environment) (classify_command []))
    × ((run_preflight key_environment scan_key [] true false []).1 ≡ [])
unfolding run_preflight cached_report dedupe_findings evaluate_policy is_hard_block matrix_get
    dedupe_loop
run_preflight_example =
    run_preflight-evaluate_policy key_environment scan_key [] true false [] refl refl
