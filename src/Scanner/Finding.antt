-- ===== src/Scanner/Finding.antt =====
-- scanner/finding.py and policy/scoring.py.
use codex_preflight.Base.{ℕ, String}

pub data Severity : Type 0 where
  critical high medium low info : Severity

pub record Finding : Type 0 where
  pub rule_id : String
  pub severity : Severity
  pub title : String
  pub file : String
  pub line : ℕ
  pub evidence : String
  pub why_it_matters : String
  pub recommendation : String

-- `SEVERITY_SCORES`
abbrev pub severity_score : Severity → ℕ
severity_score critical = 50
severity_score high = 25
severity_score medium = 10
severity_score low = 3
severity_score info = 0
