-- ===== src/Preflight/Deduped.antt =====
-- codex_preflight_core/preflight.py: what `_dedupe_findings` keeps.
use codex_preflight.Base.{
  ◌≡◌, inl, inr, refl, Bool, true, false, ◌&&◌, not, String, List, [], ◌∷◌, arith, ◌==◌, string_eq,
  contains, Bool-cases, if◌then◌else◌,
}
use codex_preflight.Scanner.Finding.{Finding}
use codex_preflight.Preflight.{is_seen, direct_shell_downloads, dedupe_loop, dedupe_findings}

-- Some finding has the rule and the file.
abbrev pub has_key : String → String → List Finding → Bool
has_key r p [] = false
has_key r p (f ∷ findings) = if f.rule_id == r && f.file == p then true else has_key r p findings

abbrev pub no_repeats : List Finding → Bool
no_repeats [] = true
no_repeats (f ∷ findings) = not (has_key f.rule_id f.file findings) && no_repeats findings

string_eqb-sym : (a b : String) → (a == b) ≡ (b == a)
string_eqb-sym a b = ground (arith, string_eq.beq_iff a b, string_eq.beq_iff b a)

abbrev seen_key : List (String × String) → String → String → Bool
seen_key [] r p = false
seen_key ((s, q) ∷ seen) r p = if s == r && q == p then true else seen_key seen r p

is_seen-key :
    (seen : List (String × String)) (f : Finding) → is_seen seen f ≡ seen_key seen f.rule_id f.file
is_seen-key [] f = refl
is_seen-key ((s, q) ∷ seen) f = ground (arith, is_seen-key seen f)

-- A key that was seen does not come again.
dedupe_loop-unseen :
    (files : List String) (seen : List (String × String)) (findings : List Finding) (r p : String)
    → seen_key seen r p ≡ true
    → has_key r p (dedupe_loop files seen findings) ≡ false
unfolding dedupe_loop
dedupe_loop-unseen files seen [] r p h = refl
dedupe_loop-unseen files seen (f ∷ findings) r p h = ground (
  arith,
  h,
  is_seen-key seen f,
  string_eq.beq_iff f.rule_id r,
  string_eq.beq_iff f.file p,
  dedupe_loop-unseen files seen findings r p h,
  dedupe_loop-unseen files ((f.rule_id, f.file) ∷ seen) findings r p,
)

dedupe_loop-no_repeats :
    (files : List String) (seen : List (String × String)) (findings : List Finding)
    → no_repeats (dedupe_loop files seen findings) ≡ true
unfolding dedupe_loop
dedupe_loop-no_repeats files seen [] = refl
dedupe_loop-no_repeats files seen (f ∷ findings) = ground (
  arith,
  dedupe_loop-no_repeats files seen findings,
  dedupe_loop-no_repeats files ((f.rule_id, f.file) ∷ seen) findings,
  string_eq.beq_iff f.rule_id f.rule_id,
  string_eq.beq_iff f.file f.file,
  dedupe_loop-unseen files ((f.rule_id, f.file) ∷ seen) findings f.rule_id f.file,
)

dedupe_loop-has_key :
    (files : List String) (seen : List (String × String)) (findings : List Finding) (r p : String)
    → has_key r p (dedupe_loop files seen findings) ≡ (
        not (r == "SHELL_DOWNLOAD_CAPABILITY" && contains files p)
        && (not (seen_key seen r p) && has_key r p findings))
unfolding dedupe_loop
dedupe_loop-has_key files seen [] r p = ground arith
dedupe_loop-has_key files seen (f ∷ findings) r p =
    elim (Bool-cases (f.rule_id == r && f.file == p)) [
      | inl h ↦ ground (
        arith,
        h,
        is_seen-key seen f,
        string_eq.beq_iff f.rule_id r,
        string_eq.beq_iff f.file p,
        dedupe_loop-has_key files seen findings r p,
        dedupe_loop-has_key files ((f.rule_id, f.file) ∷ seen) findings r p,
      )
      | inr h ↦ ground (
        arith,
        h,
        is_seen-key seen f,
        dedupe_loop-has_key files seen findings r p,
        dedupe_loop-has_key files ((f.rule_id, f.file) ∷ seen) findings r p,
      )
    ]

-- No two findings that are kept agree in rule and file, and a rule and file is kept exactly when a
-- finding has it, unless it is a download capability in a file with a direct shell download.
pub dedupe_findings-has_key :
    (findings : List Finding) (r p : String)
    → (no_repeats (dedupe_findings findings) ≡ true)
      × (has_key r p (dedupe_findings findings) ≡ (
          not (r == "SHELL_DOWNLOAD_CAPABILITY" && contains (direct_shell_downloads findings) p)
          && has_key r p findings))
unfolding dedupe_findings
dedupe_findings-has_key findings r p = (
  dedupe_loop-no_repeats (direct_shell_downloads findings) [] findings,
  dedupe_loop-has_key (direct_shell_downloads findings) [] findings r p,
)
