-- ===== src/Tests/Parsed.antt =====
-- `env A=1 sh ./run.sh`, split at its spaces.
use codex_preflight.Base.{
  ◌≡◌, refl, arith, true, ◌||◌, ◌&&◌, none, some, is_some, List, [], ◌∷◌, ◌++◌, Text, codes, leb,
  is_text, one_of, lower, starts_with, map_option,
}
use codex_preflight.Reachability.Parser.Paths.{
  Lexing, normalize_repo_path_token, unwrap_env_command, strip_quotes,
}
use codex_preflight.Reachability.Parser.Parsed.{
  ParsedCommand, clean, parse_command, parse_tokens, parse_reachable_command, first_non_option,
  unwrap_shell_words,
}
use codex_preflight.Reachability.Parser.Parsed.Env.{env_chain, parse_reachable_command-total}
use codex_preflight.Reachability.Parser.Parsed.Prefix.{
  null_short, EnvWords, no_words, flag, unset_joined, unset_short, assignment,
  parse_tokens-unwrap_env_command,
}

abbrev sh_words : List Text
sh_words = codes "sh" ∷ codes "./run.sh" ∷ []

abbrev env_words : List Text
env_words = codes "env" ∷ codes "A=1" ∷ sh_words

abbrev ascii : Lexing
ascii = record {
  shlex_split = λ s. none;
  split = λ s. env_words;
  suffix = λ s. codes ".sh";
  is_alnum = λ c. leb b'0' c && leb c b'9' || leb b'A' c && leb c b'Z' || leb b'a' c && leb c b'z';
}

abbrev command_line : Text
command_line = codes "env A=1 sh ./run.sh"

parsed_paths :
    map_option (λ (p : ParsedCommand). p.local_paths) (parse_tokens ascii 3 sh_words)
    ≡ some (record { target = codes "run.sh"; reason = codes "command invokes local script" } ∷ [])
unfolding parse_tokens clean unwrap_env_command parse_command first_non_option unwrap_shell_words
    is_text one_of lower starts_with normalize_repo_path_token strip_quotes
parsed_paths = refl

parse_reachable_command-total_example :
    (is_some (parse_reachable_command ascii 9 command_line) ≡ true)
    × (parse_reachable_command ascii 12 command_line ≡ parse_reachable_command ascii 9 command_line)
    × (parse_tokens ascii 9 (env_chain ascii 9 sh_words) ≡ none)
parse_reachable_command-total_example =
    parse_reachable_command-total ascii command_line 9 12 sh_words (omega arith) (omega arith)

-- `-0 -uX -u Y A=1`
abbrev prefix_words : List Text
prefix_words = codes "-0" ∷ codes "-uX" ∷ codes "-u" ∷ codes "Y" ∷ codes "A=1" ∷ []

prefix : EnvWords ascii prefix_words
prefix = flag null_short (
    unset_joined b'X' []
      (unset_short (codes "Y") (assignment (codes "A") (codes "1") refl refl no_words)))

prefix_clean :
    clean ascii (codes "env" ∷ prefix_words ++ sh_words) ≡ codes "env" ∷ prefix_words ++ sh_words
unfolding clean strip_quotes
prefix_clean = refl

env_example :
    parse_tokens ascii 5 (codes "env" ∷ prefix_words ++ sh_words) ≡ parse_tokens ascii 4 sh_words
unfolding is_text lower starts_with
env_example =
    parse_tokens-unwrap_env_command ascii refl 4 (codes "env") prefix_words (codes "sh")
      (codes "./run.sh" ∷ []) refl prefix refl prefix_clean
