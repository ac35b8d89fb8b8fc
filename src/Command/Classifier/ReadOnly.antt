-- ===== src/Command/Classifier/ReadOnly.antt =====
-- What SAFE_READONLY, the scope that lowers user review to a warning, is given to.
use codex_preflight.Base.{
  ◌≤◌, ◌≡◌, ap, Bool, true, ◌&&◌, ◌||◌, Option, List, [], ◌∷◌, map, arith, nat_eq, list_eq, Text,
  is_text, one_of, lower, strip, get_or, All, largest,
}
use codex_preflight.Command.Scope.{CommandScope, safe_readonly, risk_order}
use codex_preflight.Command.Words.{split_command_words}
use codex_preflight.Command.Segments.{split_shell_segments}
use codex_preflight.Command.Java.{JavaInvocation, parse_java_invocation}
use codex_preflight.Command.Classifier.{
  classify_readonly, classify_build, classify_tool, classify_words, ruby_rake_task, classify_single,
  classify_segments, classify_command,
}
use codex_preflight.Command.Classifier.Composite.{segment_risk, classify_segments-risk}

-- The first words of the read-only commands.
abbrev pub reads_only : Text → Text → Bool
reads_only first second =
    one_of first ("ls" ∷ "dir" ∷ "pwd" ∷ [])
    || (one_of first ("cat" ∷ "type" ∷ [])
        || is_text first "git" && one_of second ("status" ∷ "diff" ∷ "log" ∷ "show" ∷ []))

classify_readonly-safe :
    (command first second : Text)
    → (classify_readonly command first second).scope ≡ safe_readonly
    → reads_only first second ≡ true
unfolding classify_readonly
classify_readonly-safe command first second h = ground arith

classify_build-safe :
    (command first second : Text) (java : Option JavaInvocation) (rake : Option Text)
    → (classify_build command first second java rake).scope ≡ safe_readonly
    → reads_only first second ≡ true
unfolding classify_build
classify_build-safe command first second java rake h =
    ground (arith, classify_readonly-safe command first second)

classify_tool-safe :
    (command first second : Text) (java : Option JavaInvocation) (rake : Option Text)
    → (classify_tool command first second java rake).scope ≡ safe_readonly
    → reads_only first second ≡ true
unfolding classify_tool
classify_tool-safe command first second java rake h =
    ground (arith, classify_build-safe command first second java rake)

-- The first two lowered words of a list, by which `_classify_single` decides.
abbrev pub ReadOnlyWords : List Text → Type 0
ReadOnlyWords words =
    reads_only (get_or (map lower words) 0 []) (get_or (map lower words) 1 []) ≡ true

abbrev pub IsReadOnly : Text → Type 0
IsReadOnly command = ReadOnlyWords (split_command_words (strip command))

classify_words-safe :
    (command stripped : Text) (words : List Text)
    → (classify_words command stripped words).scope ≡ safe_readonly
    → ReadOnlyWords words
unfolding classify_words
classify_words-safe command stripped words h =
    let first = get_or (map lower words) 0 [] in
    let second = get_or (map lower words) 1 [] in
    ground (
      arith,
      classify_tool-safe command first second (parse_java_invocation words)
          (ruby_rake_task (map lower words)),
    )

classify_single-safe :
    (command : Text) → (classify_single command).scope ≡ safe_readonly → IsReadOnly command
unfolding classify_single
classify_single-safe command h =
    classify_words-safe command (strip command) (split_command_words (strip command)) h

-- The commands that are classified one by one: the segments, or the whole of a simple command.
abbrev pub pieces : Text → List Text → List Text
pieces command (a ∷ b ∷ segments) = a ∷ b ∷ segments
pieces command _ = command ∷ []

scope_of_no_risk : (s : CommandScope) → risk_order s ≤ 0 → s ≡ safe_readonly
scope_of_no_risk s h = ground arith

no_risk : (segments : List Text) → largest segment_risk segments ≤ 0 → All IsReadOnly segments
no_risk [] h = tt
no_risk (s ∷ segments) h =
    (classify_single-safe s (scope_of_no_risk _ (omega arith)), no_risk segments (omega arith))

classify_segments-safe :
    (command : Text) (segments : List Text)
    → (classify_segments command segments).scope ≡ safe_readonly
    → All IsReadOnly (pieces command segments)
classify_segments-safe command [] h =
    (classify_single-safe command (unfold classify_segments in h), tt)
classify_segments-safe command (a ∷ []) h =
    (classify_single-safe command (unfold classify_segments in h), tt)
classify_segments-safe command (a ∷ b ∷ segments) h = no_risk (a ∷ b ∷ segments) (
    omega (arith, classify_segments-risk command (a ∷ b ∷ segments) (omega arith), ap risk_order h))

-- A command is SAFE_READONLY only if each of its segments begins with a read-only program: one
-- segment with another program keeps the whole command from being lowered.
pub classify_command-IsReadOnly :
    (command : Text)
    → (classify_command command).scope ≡ safe_readonly
    → All IsReadOnly (pieces command (split_shell_segments command))
unfolding classify_command
classify_command-IsReadOnly command h =
    classify_segments-safe command (split_shell_segments command) h
