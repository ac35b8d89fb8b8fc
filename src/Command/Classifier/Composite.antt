-- ===== src/Command/Classifier/Composite.antt =====
-- A composite command is as risky as its riskiest segment; a formatted argv is never composite.
use Prim.Native.Nat.{max}
use codex_preflight.Base.{
  ℕ, ◌<◌, ◌≡◌, refl, List, [], ◌∷◌, ◌++◌, map, arith, Text, length, largest, strip,
}
use codex_preflight.Command.Scope.{CommandClassification, risk_order}
use codex_preflight.Command.Words.{format_argv_for_preflight}
use codex_preflight.Command.Segments.{split_shell_segments, append_segment}
use codex_preflight.Command.Segments.Formatted.{split_shell_segments-format}
use codex_preflight.Command.Classifier.{
  classify_single, classify_segments, classify_command, riskiest_from,
}

abbrev pub segment_risk : Text → ℕ
segment_risk s = risk_order (classify_single s).scope

riskiest_from-risk :
    (best : CommandClassification) (segments : List Text)
    → risk_order (riskiest_from best (map classify_single segments)).scope
      ≡ max (risk_order best.scope) (largest segment_risk segments)
riskiest_from-risk best [] = omega arith
riskiest_from-risk best (s ∷ segments) =
    ground
      (arith, riskiest_from-risk best segments, riskiest_from-risk (classify_single s) segments)

pub classify_segments-risk :
    (command : Text) (segments : List Text)
    → 1 < length segments
    → risk_order (classify_segments command segments).scope ≡ largest segment_risk segments
unfolding classify_segments
classify_segments-risk command [] h = absurd (omega arith)
classify_segments-risk command (a ∷ []) h = absurd (omega arith)
classify_segments-risk command (a ∷ b ∷ segments) h =
    riskiest_from-risk (classify_single a) (b ∷ segments)

-- With two segments or more, the risk of the command is the highest risk of a segment.
pub classify_command-risk :
    (command : Text)
    → 1 < length (split_shell_segments command)
    → risk_order (classify_command command).scope
      ≡ largest segment_risk (split_shell_segments command)
unfolding classify_command
classify_command-risk command h = classify_segments-risk command (split_shell_segments command) h

at_most_one :
    (command s : Text) → classify_segments command (append_segment [] s) ≡ classify_single command
unfolding classify_segments append_segment
at_most_one command s = one (strip s)
  where
    one :
        (t : Text)
        → classify_segments command (elim t [ [] ↦ [] | c ∷ r ↦ [] ++ ((c ∷ r) ∷ []) ])
          ≡ classify_single command
    one [] = refl
    one (c ∷ r) = refl

-- The `exec` wrapper's argv is classified as one command: no argument can add a segment.
pub classify_command-format :
    (args : List Text)
    → classify_command (format_argv_for_preflight args)
      ≡ classify_single (format_argv_for_preflight args)
unfolding classify_command
classify_command-format args =
    rw (split_shell_segments-format args)
      (at_most_one (format_argv_for_preflight args) (format_argv_for_preflight args))
