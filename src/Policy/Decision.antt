-- ===== src/Policy/Decision.antt =====
-- policy/decision.py, and `DECISION_RANK` and `max_decision` of policy/matrix.py.
use codex_preflight.Base.{
  ℕ, ◌≤◌, ◌≡◌, ◌↔◌, Bool, true, String, List, [], ◌∷◌, Eq, arith, nat_eqb, ltb, if◌then◌else◌,
}

pub data Decision : Type 0 where
  allow warn ask_user block : Decision

-- `EXIT_CODES`
abbrev pub exit_code : Decision → ℕ
exit_code allow = 0
exit_code warn = 10
exit_code ask_user = 20
exit_code block = 30

-- `DECISION_RANK`
abbrev pub decision_rank : Decision → ℕ
decision_rank allow = 0
decision_rank warn = 1
decision_rank ask_user = 2
decision_rank block = 3

abbrev pub decision_eqb : Decision → Decision → Bool
decision_eqb a b = nat_eqb (decision_rank a) (decision_rank b)

pub decision_eqb_iff : (a b : Decision) → (decision_eqb a b ≡ true) ↔ (a ≡ b)
decision_eqb_iff a b = ground arith

instance abbrev pub decision_eq : Eq Decision
decision_eq = record { beq = decision_eqb; beq_iff = decision_eqb_iff }

-- `max(decisions, key=rank)` from the best so far: an earlier decision wins a tie.
abbrev pub max_from : Decision → List Decision → Decision
max_from best [] = best
max_from best (d ∷ ds) =
    max_from (if ltb (decision_rank best) (decision_rank d) then d else best) ds

abbrev pub max_decision : List Decision → Decision
max_decision [] = allow
max_decision (d ∷ ds) = max_from d ds

pub record PolicyResult : Type 0 where
  pub decision : Decision
  pub risk_score : ℕ
  pub reason : String
  pub agent_instruction : String

-- The order of strictness.
infix 50 ◌⊑◌
abbrev pub ◌⊑◌ : Decision → Decision → Type 0
a ⊑ b = decision_rank a ≤ decision_rank b

pub eq_of_rank : (a b : Decision) → decision_rank a ≡ decision_rank b → a ≡ b
eq_of_rank a b h = ground arith
