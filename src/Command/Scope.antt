-- ===== src/Command/Scope.antt =====
-- command/scope.py, and the classification record and risk order of command/classifier.py.
use codex_preflight.Base.{ℕ, ◌≡◌, ◌↔◌, Bool, true, Text, Eq, arith, nat_eqb}

pub data CommandScope : Type 0 where
  dependency_install script_execution build test docker : CommandScope
  network_shell mcp_server_start unknown_shell safe_readonly : CommandScope

-- `RISK_ORDER`
abbrev pub risk_order : CommandScope → ℕ
risk_order safe_readonly = 0
risk_order unknown_shell = 1
risk_order test = 2
risk_order build = 3
risk_order mcp_server_start = 4
risk_order script_execution = 5
risk_order docker = 6
risk_order dependency_install = 7
risk_order network_shell = 8

abbrev pub scope_eqb : CommandScope → CommandScope → Bool
scope_eqb a b = nat_eqb (risk_order a) (risk_order b)

pub scope_eqb_iff : (a b : CommandScope) → (scope_eqb a b ≡ true) ↔ (a ≡ b)
scope_eqb_iff a b = ground arith

instance abbrev pub scope_eq : Eq CommandScope
scope_eq = record { beq = scope_eqb; beq_iff = scope_eqb_iff }

pub record CommandClassification : Type 0 where
  pub raw : Text
  pub scope : CommandScope
  pub reason : Text
