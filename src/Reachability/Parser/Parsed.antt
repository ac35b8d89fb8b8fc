-- ===== src/Reachability/Parser/Parsed.antt =====
-- codex_preflight_core/reachability/command_parser.py: parse_reachable_command.
pub mod Env
pub mod Prefix
use codex_preflight.Base.{
  ℕ, zero, suc, Bool, true, false, ◌&&◌, ◌||◌, not, Option, none, some, String, List, [], ◌∷◌, ◌++◌,
  Text, codes, ◌==◌, nat_eq, string_eq, list_eq, is_text, one_of, lower, starts_with, map, keep,
  length, if◌then◌else◌,
}
use codex_preflight.Reachability.Parser.Paths.{
  Lexing, CommandTarget, CommandUncertainty, parse_uncertain_reason, normalize_repo_path_token,
  is_local_path_token, unwrap_env_command, strip_quotes, is_empty,
}
use codex_preflight.Reachability.Parser.Interpreters.{
  Found, nothing, join_words, python_words, node_words, extract_windows_shell_targets,
}

pub record ParsedCommand : Type 0 where
  pub executable : Text
  pub args : List Text
  pub local_paths : List CommandTarget
  pub nested_commands : List Text
  pub package_scripts : List Text
  pub python_modules : List Text
  pub uncertainties : List CommandUncertainty

abbrev pub no_command : ParsedCommand
no_command = record {
  executable = [];
  args = [];
  local_paths = [];
  nested_commands = [];
  package_scripts = [];
  python_modules = [];
  uncertainties = [];
}

abbrev pub target_for : String → Text → CommandTarget
target_for reason t = record { target = t; reason = codes reason }

abbrev pub first_word : List Text → Option Text
first_word [] = none
first_word (t ∷ ts) = some t

abbrev pub has_some {ℓ} : {A : Type ℓ} → List A → Bool
has_some [] = false
has_some (x ∷ xs) = true

abbrev pub has_word : List Text → Bool
has_word ts = has_some ts

-- `_first_non_option`
unfoldable pub first_non_option : List Text → Option Text
first_non_option [] = none
first_non_option (t ∷ rest) =
    let more = first_non_option rest in
    if is_text t "--" then first_word rest else if starts_with t (codes "-") then more else some t

-- The loop of `unwrap_shell_c_command`.
unfoldable pub unwrap_shell_words : List Text → Option Text
unwrap_shell_words [] = none
unwrap_shell_words (t ∷ rest) =
    let more = unwrap_shell_words rest in if is_text t "-c" then first_word rest else more

-- `_package_script_name`
unfoldable pub package_script_name : List Text → Option Text
package_script_name (t ∷ u ∷ rest) =
    if one_of (lower t) ("npm" ∷ "pnpm" ∷ "yarn" ∷ "bun" ∷ [])
      && is_text (lower u) "run"
      && has_word rest
    then first_word rest
    else if one_of (lower t) ("npm" ∷ "pnpm" ∷ "yarn" ∷ [])
        && one_of (lower u) ("test" ∷ "start" ∷ "build" ∷ [])
    then some u
    else none
package_script_name _ = none

abbrev pub lower_second : List Text → Text
lower_second [] = []
lower_second (u ∷ rest) = lower u

-- `_is_external_package_execution`
unfoldable pub is_external_package_execution : List Text → Bool
is_external_package_execution [] = false
is_external_package_execution (t ∷ rest) =
    is_text (lower t) "npx"
    || is_text (lower t) "pnpm" && is_text (lower_second rest) "exec"
    || is_text (lower t) "yarn" && is_text (lower_second rest) "dlx"

abbrev pub tool_name : Text → List Text → Text
tool_name executable (u ∷ v ∷ rest) = if one_of executable ("pnpm" ∷ "yarn" ∷ []) then v else u
tool_name executable (u ∷ []) = u
tool_name executable [] = []

abbrev pub unresolved : String → String → List Text → CommandUncertainty
unresolved rule_id what tokens = record {
  rule_id = rule_id;
  reason = codes what ++ join_words tokens;
}

module _ (lexing : Lexing) where
  abbrev pub with_script : ParsedCommand → Option Text → ParsedCommand
  with_script base none = base
  with_script base (some t) = if is_empty t then base else record base {
    local_paths = target_for "command invokes local script" (normalize_repo_path_token t) ∷ [];
  }

  abbrev pub shell_inner : ParsedCommand → List Text → Option Text → ParsedCommand
  shell_inner base args none = with_script base (first_non_option args)
  shell_inner base args (some inner) =
      if is_empty inner
      then record base {
        uncertainties =
            parse_uncertain_reason (codes "Shell -c flag is missing a command string.") ∷ [];
      }
      else record base { nested_commands = inner ∷ [] }

  abbrev pub of_found : ParsedCommand → String → Found → ParsedCommand
  of_found base reason f = record base {
    local_paths = map (target_for reason) f.targets;
    nested_commands = f.nested;
    python_modules = f.modules;
    uncertainties = f.uncertainties;
  }

  abbrev pub is_found : Found → Bool
  is_found f = has_some f.targets || has_word f.nested || has_some f.uncertainties

  abbrev pub local_target : ParsedCommand → String → Text → ParsedCommand
  local_target base reason t = record base {
    local_paths = target_for reason (normalize_repo_path_token t) ∷ [];
  }

  abbrev pub external : ParsedCommand → List Text → Text → ParsedCommand
  external base tokens tool =
      if is_local_path_token lexing tool
      then local_target base "package manager executes local tool" tool
      else record base {
        uncertainties =
            unresolved "SCRIPT_EXTERNAL_PACKAGE_EXECUTION"
              "Package manager may execute external package or tool: " tokens
            ∷ [];
      }

  abbrev pub task_unresolved : ParsedCommand → String → List Text → ParsedCommand
  task_unresolved base what tokens = record base {
    uncertainties = unresolved "SCRIPT_TASK_RUNNER_UNRESOLVED" what tokens ∷ [];
  }

  -- `source` and what is a path itself, at the end.
  abbrev pub parse_path : ParsedCommand → Text → List Text → ParsedCommand
  parse_path base t [] =
      if is_local_path_token lexing t
      then local_target base "command invokes local script" t
      else base
  parse_path base t (u ∷ rest) =
      if one_of (lower t) ("source" ∷ "." ∷ [])
      then local_target base "shell source indirection" u
      else if is_local_path_token lexing t
      then local_target base "command invokes local script" t
      else base

  abbrev pub second_is : (Text → Bool) → List Text → Bool
  second_is p [] = false
  second_is p (u ∷ rest) = p u

  abbrev pub third_or : Text → List Text → Text
  third_or d (u ∷ v ∷ rest) = v
  third_or d _ = d

  abbrev pub has_two : List Text → Bool
  has_two (u ∷ v ∷ rest) = true
  has_two _ = false

  -- The runtimes and task runners behind the package managers.
  abbrev pub parse_runtime : ParsedCommand → Text → List Text → ParsedCommand
  parse_runtime base t args =
      if is_text (lower t) "deno" && has_two args && second_is (λ u. is_text (lower u) "run") args
      then local_target base "deno run reaches local script" (third_or [] args)
      else if is_text (lower t) "deno"
          && has_two args
          && second_is (λ u. is_text (lower u) "task") args
      then task_unresolved base "Deno task was not statically resolved: " (t ∷ args)
      else if is_text (lower t) "bun" && second_is (λ u. is_local_path_token lexing u) args
      then elim (first_word args) [
        | none ↦ base
        | some u ↦ local_target base "bun command reaches local script" u
      ]
      else if one_of (lower t) ("just" ∷ "task" ∷ [])
      then task_unresolved base "Task runner command was not statically resolved: " (t ∷ args)
      else parse_path base t args

  abbrev pub parse_package : ParsedCommand → Text → List Text → Option Text → ParsedCommand
  parse_package base t args (some name) = record base { package_scripts = name ∷ [] }
  parse_package base t args none =
      if is_external_package_execution (t ∷ args)
      then external base (t ∷ args) (tool_name (lower t) args)
      else parse_runtime base t args

  -- A command that does not begin with `env`: the rest of `_parse_tokens`.
  unfoldable pub parse_command : Text → List Text → ParsedCommand
  parse_command t args =
      let base : ParsedCommand = record no_command { executable = lower t; args = args } in
      let windows = extract_windows_shell_targets lexing (t ∷ args) in
      if one_of (lower t) ("bash" ∷ "sh" ∷ [])
      then shell_inner base args (unwrap_shell_words args)
      else if one_of (lower t) ("python" ∷ "python3" ∷ [])
      then of_found base "python command invokes local script" (python_words false args)
      else if is_text (lower t) "node"
      then of_found base "node command reaches local script" (node_words false args)
      else if is_found windows
      then of_found base "windows shell command reaches local script" windows
      else parse_package base t args (package_script_name (t ∷ args))

  -- The words of `tokens` without their quotes, less the empty ones.
  unfoldable pub clean : List Text → List Text
  clean tokens = keep (λ t. not (is_empty t)) (map strip_quotes tokens)

  abbrev pub parse_unwrapped : List Text → List Text → Option ParsedCommand → Option ParsedCommand
  parse_unwrapped [] unwrapped more = some no_command
  parse_unwrapped (t ∷ args) unwrapped more =
      if unwrapped == t ∷ args then some (parse_command t args) else more

  -- `_parse_tokens`, at the number of nested calls of it that Python allows; `none` is RecursionError.
  unfoldable pub parse_tokens : ℕ → List Text → Option ParsedCommand
  parse_tokens zero tokens = none
  parse_tokens (suc depth) tokens =
      let more = parse_tokens depth (unwrap_env_command lexing (clean tokens)) in
      parse_unwrapped (clean tokens) (unwrap_env_command lexing (clean tokens)) more

  abbrev pub split_words : Text → Option (List Text) → List Text
  split_words command none = lexing.split command
  split_words command (some words) = words

  -- `parse_reachable_command`, with `_split`, at the number of nested calls that Python allows
  unfoldable pub parse_reachable_command : ℕ → Text → Option ParsedCommand
  parse_reachable_command depth command =
      parse_tokens depth (split_words command (lexing.shlex_split command))
