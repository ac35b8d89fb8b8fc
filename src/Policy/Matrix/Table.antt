-- ===== src/Policy/Matrix/Table.antt =====
-- What holds of every entry of the table, checked by evaluation.
use codex_preflight.Base.{
  ◌≤◌, ◌≡◌, refl, String, Bool, true, false, ◌&&◌, Option, none, some, List, [], ◌∷◌, arith, all,
  leb, ◌==◌, string_eq, inl, inr, Bool-cases,
}
use codex_preflight.Command.Scope.{CommandScope, scope_eq}
use codex_preflight.Policy.Decision.{Decision, decision_rank}
use codex_preflight.Policy.Matrix.{
  PolicyMatrixEntry, policy_matrix, find_entry, matrix_get, scope_get, minimum_decision_for,
  is_hard_block, entry_hard, entry_minimum,
}

-- A minimum asks for a warning at least, and it blocks exactly in a hard entry.
abbrev fits : Bool → Decision → Bool
fits true d = leb 3 (decision_rank d)
fits false d = leb 1 (decision_rank d) && leb (decision_rank d) 2

abbrev fits_all : Bool → List (CommandScope × Decision) → Bool
fits_all hard [] = true
fits_all hard ((s, d) ∷ rest) = fits hard d && fits_all hard rest

abbrev entry_fits : PolicyMatrixEntry → Bool
entry_fits e = fits e.hard_block e.default_minimum && fits_all e.hard_block e.scope_minimums

table_fits : all entry_fits policy_matrix ≡ true
unfolding policy_matrix
table_fits = refl

scope_get-fits :
    (hard : Bool) (l : List (CommandScope × Decision)) (s : CommandScope) (d : Decision)
    → fits_all hard l ≡ true
    → fits hard d ≡ true
    → fits hard (scope_get l s d) ≡ true
scope_get-fits hard [] s d h k = k
scope_get-fits hard ((t, x) ∷ rest) s d h k = elim (Bool-cases (scope_eq.beq t s)) [
  | inl e ↦ rw e (ground arith)
  | inr e ↦ rw e (scope_get-fits hard rest s d (ground arith) k)
]

find_entry-fits :
    (rule_id : String) (l : List PolicyMatrixEntry) (e : PolicyMatrixEntry)
    → all entry_fits l ≡ true
    → find_entry rule_id l ≡ some e
    → entry_fits e ≡ true
unfolding find_entry
find_entry-fits rule_id [] e h f = cc
find_entry-fits rule_id (x ∷ l) e h f = elim (Bool-cases (x.rule_id == rule_id)) [
  | inl p ↦ ground arith
  | inr p ↦ find_entry-fits rule_id l e (ground arith) (ground arith)
]

-- The minimum of a rule, by whether it is in the table and hard.
abbrev pub MinimumFits : Bool → Option Decision → Type 0
MinimumFits hard none = hard ≡ false
MinimumFits true (some d) = 3 ≤ decision_rank d
MinimumFits false (some d) = (1 ≤ decision_rank d) × (decision_rank d ≤ 2)

fits-MinimumFits : (hard : Bool) (d : Decision) → fits hard d ≡ true → MinimumFits hard (some d)
fits-MinimumFits true d h = ground arith
fits-MinimumFits false d h = ground arith

entry-MinimumFits :
    (rule_id : String) (scope : CommandScope) (o : Option PolicyMatrixEntry)
    → find_entry rule_id policy_matrix ≡ o
    → MinimumFits (entry_hard o) (entry_minimum scope o)
entry-MinimumFits rule_id scope none e = refl
entry-MinimumFits rule_id scope (some x) e =
    let ok = find_entry-fits rule_id policy_matrix x table_fits e in
    fits-MinimumFits x.hard_block _ (
      scope_get-fits x.hard_block x.scope_minimums scope x.default_minimum (ground arith)
        (ground arith))

pub minimum_fits :
    (rule_id : String) (scope : CommandScope)
    → MinimumFits (is_hard_block rule_id) (minimum_decision_for rule_id scope)
unfolding minimum_decision_for is_hard_block matrix_get
minimum_fits rule_id scope = entry-MinimumFits rule_id scope _ refl
