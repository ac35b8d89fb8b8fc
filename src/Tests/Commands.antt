-- ===== src/Tests/Commands.antt =====
-- Commands: the tokenizer, the segments and the classification.
use codex_preflight.Base.{
  ◌≡◌, refl, Text, List, [], ◌∷◌, codes, All, largest, arith, strip, is_text, has_infix, lower,
  one_of, ends_with, starts_with,
}
use codex_preflight.Command.Scope.{risk_order, safe_readonly, dependency_install}
use codex_preflight.Command.Words.{split_command_words, format_argv_for_preflight}
use codex_preflight.Command.Words.RoundTrip.{split-format}
use codex_preflight.Command.Segments.{split_shell_segments}
use codex_preflight.Command.Classifier.{classify_command, classify_single}
use codex_preflight.Command.Java
use codex_preflight.Command.Classifier
use codex_preflight.Command.Classifier.Composite.{
  segment_risk, classify_command-format, classify_command-risk,
}
use codex_preflight.Command.Classifier.ReadOnly.{IsReadOnly, pieces, classify_command-IsReadOnly}

-- The second argument holds a separator and a quote.
abbrev echo_argv : List Text
echo_argv = codes "echo" ∷ codes "it's; rm" ∷ [] ∷ []

abbrev composite_command : Text
composite_command = codes "ls && npm install; cat a"

abbrev readonly_command : Text
readonly_command = codes "ls && cat a"

split-format_example : split_command_words (format_argv_for_preflight echo_argv) ≡ echo_argv
split-format_example = split-format echo_argv

classify-format_example :
    classify_command (format_argv_for_preflight echo_argv)
    ≡ classify_single (format_argv_for_preflight echo_argv)
classify-format_example = classify_command-format echo_argv

classify-risk_example :
    risk_order (classify_command composite_command).scope
    ≡ largest segment_risk (split_shell_segments composite_command)
unfolding split_shell_segments strip
classify-risk_example = classify_command-risk composite_command (omega arith)

readonly_is_safe : (classify_command readonly_command).scope ≡ safe_readonly
unfolding classify_command Classifier.classify_segments split_shell_segments strip classify_single
    Classifier.classify_words is_text Classifier.is_remote_pipe has_infix lower
    Classifier.is_mcp_start Classifier.classify_tool one_of split_command_words
    Classifier.classify_build Java.parse_java_invocation Classifier.ruby_rake_task
    Classifier.classify_readonly ends_with starts_with Java.basename
readonly_is_safe = refl

classify-IsReadOnly_example :
    All IsReadOnly (pieces readonly_command (split_shell_segments readonly_command))
classify-IsReadOnly_example = classify_command-IsReadOnly readonly_command readonly_is_safe

install_is_riskiest : (classify_command composite_command).scope ≡ dependency_install
unfolding classify_command Classifier.classify_segments split_shell_segments strip classify_single
    Classifier.classify_words is_text Classifier.is_remote_pipe has_infix lower
    Classifier.is_mcp_start Classifier.classify_tool one_of split_command_words
    Classifier.classify_build Java.parse_java_invocation Classifier.ruby_rake_task
    Classifier.classify_readonly ends_with starts_with Java.basename
install_is_riskiest = refl

-- One bar does not separate segments.
piped_to_shell : (classify_command (codes "cat x.sh | bash")).scope ≡ safe_readonly
unfolding classify_command Classifier.classify_segments split_shell_segments strip classify_single
    Classifier.classify_words is_text Classifier.is_remote_pipe has_infix lower
    Classifier.is_mcp_start Classifier.classify_tool one_of split_command_words
    Classifier.classify_build Java.parse_java_invocation Classifier.ruby_rake_task
    Classifier.classify_readonly ends_with starts_with Java.basename
piped_to_shell = refl
