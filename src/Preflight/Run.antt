-- ===== src/Preflight/Run.antt =====
-- codex_preflight_core/preflight.py: `run_preflight`, on what the scanners, the trust store and the scan
-- cache give it. The repository, its fingerprint and the rendering of the report are left out.
use codex_preflight.Base.{
  ◌≡◌, refl, Bool, true, false, ◌&&◌, not, Option, none, some, List, [], ◌∷◌, ◌++◌, arith, Text,
  if◌then◌else◌,
}
use codex_preflight.Command.Scope.{CommandClassification}
use codex_preflight.Command.Classifier.{classify_command}
use codex_preflight.Scanner.Finding.{Finding}
use codex_preflight.Policy.Decision.{Decision, PolicyResult, allow}
use codex_preflight.Policy.Engine.{evaluate_policy}
use codex_preflight.Policy.Explanation.{PolicyExplanation, build_policy_explanation}
use codex_preflight.Cache.ScanCache.{CacheKey, is_cacheable, cached_report, store_report}
use codex_preflight.Preflight.{dedupe_findings}

-- The entries of the report's `cache` that vary.
pub record CacheStatus : Type 0 where
  pub used_scan_cache : Bool
  pub used_trust_cache : Bool

pub record Report : Type 0 where
  pub command : Text
  pub classification : CommandClassification
  pub findings : List Finding
  pub policy : PolicyResult
  pub cache : CacheStatus
  pub policy_explanation : Option PolicyExplanation

-- What the environment gives: the findings of the command, of the repository and of the graph,
-- whether the trust store has a match (not if it cannot be read), and whether the scan cache can be
-- read and written.
pub record Environment : Type 0 where
  pub command_findings : List Finding
  pub repository_findings : List Finding
  pub graph_findings : List Finding
  pub trust_match : Bool
  pub cache_readable : Bool
  pub cache_writable : Bool

abbrev pub report_decision : Report → Decision
report_decision r = r.policy.decision

abbrev pub trusted_result : PolicyResult → PolicyResult
trusted_result p = record {
  decision = allow;
  risk_score = p.risk_score;
  reason = "Command allowed by matching scoped user approval.";
  agent_instruction = "Proceed normally. A matching scoped user approval was found.";
}

abbrev pub all_findings : Environment → List Finding
all_findings env =
    dedupe_findings ((env.command_findings ++ env.repository_findings) ++ env.graph_findings)

-- The report that is built when the cache has none.
unfoldable pub fresh_report : Environment → Text → Bool → Report
fresh_report env command trust =
    let c = classify_command command in
    let findings = all_findings env in
    let policy =
      if trust then trusted_result (evaluate_policy findings c) else evaluate_policy findings c in
    record {
      command = command;
      classification = c;
      findings = findings;
      policy = policy;
      cache = record { used_scan_cache = false; used_trust_cache = trust };
      policy_explanation = build_policy_explanation findings c policy trust;
    }

abbrev pub Entries : Type 0
Entries = List (CacheKey × Report)

abbrev pub finish :
    Environment → CacheKey → Text → Bool → Bool → Option Report → Entries → Report × Entries
finish env key command use_cache trust (some cached) entries =
    (record cached { cache = record { used_scan_cache = true; used_trust_cache = false } }, entries)
finish env key command use_cache trust none entries =
    let report = fresh_report env command trust in
    (
      report,
      (if use_cache && (not trust && env.cache_writable)
          then store_report report_decision key report entries
          else entries),
    )

unfoldable pub run_preflight :
    Environment → CacheKey → Text → Bool → Bool → Entries → Report × Entries
unfolding fresh_report
run_preflight env key command use_cache allow_trust entries =
    finish env key command use_cache (allow_trust && env.trust_match)
      (if use_cache && env.cache_readable then cached_report report_decision key entries else none)
      entries

cached_report-is_cacheable :
    (key : CacheKey) (entries : Entries) (r : Report)
    → cached_report report_decision key entries ≡ some r
    → is_cacheable (report_decision r) ≡ true
unfolding cached_report
cached_report-is_cacheable key [] r h = ground (arith, h)
cached_report-is_cacheable key ((k, s) ∷ entries) r h =
    ground (arith, h, cached_report-is_cacheable key entries r)

finish-decision :
    (env : Environment) (key : CacheKey) (command : Text) (use_cache trust : Bool)
    (found : Option Report) (entries : Entries)
    → trust ≡ false
    → ((r : Report) → found ≡ some r → is_cacheable (report_decision r) ≡ true)
    → is_cacheable (finish env key command use_cache trust found entries).0.policy.decision ≡ false
    → ((finish env key command use_cache trust found entries).0.policy
        ≡ evaluate_policy (all_findings env) (classify_command command))
      × ((finish env key command use_cache trust found entries).1 ≡ entries)
unfolding fresh_report store_report
finish-decision env key command use_cache true found entries t h d = ground (arith, t)
finish-decision env key command use_cache false (some r) entries t h d = ground (arith, h r refl, d)
finish-decision env key command use_cache false none entries t h d = (refl, ground (arith, d))

-- What the scan cache gives is cacheable.
lookup-is_cacheable :
    (reads : Bool) (key : CacheKey) (entries : Entries) (r : Report)
    → (if reads then cached_report report_decision key entries else none) ≡ some r
    → is_cacheable (report_decision r) ≡ true
lookup-is_cacheable true key entries r h = cached_report-is_cacheable key entries r h
lookup-is_cacheable false key entries r h = ground (arith, h)

-- Without an approval, a report that asks for review or blocks comes from the gate on the findings of
-- this run, never from the scan cache, and it leaves the scan cache as it was.
pub run_preflight-evaluate_policy :
    (env : Environment) (key : CacheKey) (command : Text) (use_cache allow_trust : Bool)
    (entries : Entries)
    → (allow_trust && env.trust_match) ≡ false
    → is_cacheable (run_preflight env key command use_cache allow_trust entries).0.policy.decision
      ≡ false
    → ((run_preflight env key command use_cache allow_trust entries).0.policy
        ≡ evaluate_policy (all_findings env) (classify_command command))
      × ((run_preflight env key command use_cache allow_trust entries).1 ≡ entries)
unfolding run_preflight
run_preflight-evaluate_policy env key command use_cache allow_trust entries t d =
    finish-decision env key command use_cache (allow_trust && env.trust_match)
      (if use_cache && env.cache_readable then cached_report report_decision key entries else none)
      entries t (λ r h. lookup-is_cacheable (use_cache && env.cache_readable) key entries r h) d
