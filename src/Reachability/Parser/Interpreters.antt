-- ===== src/Reachability/Parser/Interpreters.antt =====
-- codex_preflight_core/reachability/command_parser.py: what shells, Python, Node and the Windows
-- shells run. A loop over an index is one over the words behind it; a flag says that the next word is
-- the value of the one before.
use codex_preflight.Base.{
  Bool, true, false, ◌&&◌, ◌||◌, not, String, List, [], ◌∷◌, ◌++◌, Text, codes, nat_eq, string_eq,
  list_eq, contains, is_text, one_of, lower, starts_with, drop, all, if◌then◌else◌,
}
use codex_preflight.Reachability.Parser.Paths.{
  Lexing, CommandUncertainty, parse_uncertain_reason, normalize_repo_path_token,
  is_windows_absolute_path, outside_repo_target, is_local_path_token,
}

-- What a command line is found to run.
pub record Found : Type 0 where
  pub targets : List Text
  pub modules : List Text
  pub nested : List Text
  pub uncertainties : List CommandUncertainty

abbrev pub nothing : Found
nothing = record { targets = []; modules = []; nested = []; uncertainties = [] }

abbrev pub one_target : Text → Found
one_target t = record nothing { targets = normalize_repo_path_token t ∷ [] }

abbrev pub uncertain : Text → Found
uncertain reason = record nothing { uncertainties = parse_uncertain_reason reason ∷ [] }

abbrev pub nested_command : Text → Found
nested_command c = record nothing { nested = c ∷ [] }

abbrev pub add_target : Text → Found → Found
add_target t f = record f { targets = normalize_repo_path_token t ∷ f.targets }

abbrev pub missing_value : String → Text → String → Found
missing_value name flag what = uncertain (codes name ++ (codes " flag " ++ (flag ++ codes what)))

-- `PYTHON_VALUE_FLAGS`
abbrev pub is_python_value_flag : Text → Bool
is_python_value_flag t = one_of t ("-W" ∷ "-X" ∷ [])

-- `_is_python_combined_value_flag`
abbrev pub is_python_combined_value_flag : Text → Bool
is_python_combined_value_flag t =
    (starts_with t (codes "-X") || starts_with t (codes "-W")) && not (is_python_value_flag t)

-- `PYTHON_NO_VALUE_FLAGS`
abbrev pub is_python_plain_flag : Text → Bool
is_python_plain_flag t = one_of t (
    "-b" ∷ "-bb" ∷ "-bB" ∷ "-e" ∷ "-E" ∷ "-i" ∷ "-I" ∷ "-O" ∷ "-OO" ∷ "-q" ∷ "-s" ∷ "-S" ∷ "-u"
    ∷ "-v" ∷ "-V" ∷ "--version" ∷ [])

-- `_is_python_combined_flag`
abbrev pub is_python_combined_flag : Text → Bool
is_python_combined_flag t =
    starts_with t (codes "-") && all (contains (codes "BEIOSbiqsuv")) (drop 1 t)

abbrev pub python_module : List Text → Found
python_module [] = uncertain (codes "Python -m flag is missing a module name.")
python_module (name ∷ rest) = record nothing { modules = name ∷ [] }

abbrev pub python_inline : Text → List Text → Found
python_inline flag [] = missing_value "Python" flag " is missing inline code."
python_inline flag (code ∷ rest) = nothing

abbrev pub with_value : Found → Found → List Text → Found
with_value missing more [] = missing
with_value missing more (v ∷ rest) = more

-- The loop of `extract_python_targets`.
unfoldable pub python_words : Bool → List Text → Found
python_words skip [] = nothing
python_words true (t ∷ rest) = python_words false rest
python_words false (t ∷ rest) =
    let more = python_words (is_python_value_flag t) rest in
    if is_text t "-m"
    then python_module rest
    else if is_text t "-c"
    then python_inline t rest
    else if is_python_value_flag t
    then with_value (missing_value "Python" t " is missing a value.") more rest
    else if is_python_combined_value_flag t
        || is_python_plain_flag t
        || is_python_combined_flag t
        || starts_with t (codes "-")
    then more
    else one_target t

-- `NODE_VALUE_FLAGS`
abbrev pub is_node_value_flag : Text → Bool
is_node_value_flag t = one_of t ("--require" ∷ "-r" ∷ "--loader" ∷ "--import" ∷ [])

-- `NODE_INLINE_FLAGS`
abbrev pub is_node_inline_flag : Text → Bool
is_node_inline_flag t = one_of t ("-e" ∷ "--eval" ∷ "-p" ∷ "--print" ∷ "--check" ∷ [])

-- The loop of `extract_node_targets`; the value of a flag is a target.
unfoldable pub node_words : Bool → List Text → Found
node_words skip [] = nothing
node_words true (t ∷ rest) = let more = node_words false rest in add_target t more
node_words false (t ∷ rest) =
    let more = node_words (is_node_value_flag t) rest in
    if is_node_value_flag t
    then with_value (missing_value "Node" t " is missing a value.") more rest
    else if starts_with t (codes "--require=")
    then add_target (drop 10 t) more
    else if is_node_inline_flag t
    then nothing
    else if starts_with t (codes "-")
    then more
    else one_target t

-- The words behind `-File`, with `_append_target_or_outside_uncertainty`.
abbrev pub powershell_file : List Text → Found
powershell_file [] = uncertain (codes "PowerShell -File flag is missing a target.")
powershell_file (t ∷ rest) =
    if is_windows_absolute_path t
    then record nothing { uncertainties = outside_repo_target t ∷ [] }
    else one_target t

-- `" ".join(words)`
unfoldable pub join_words : List Text → Text
join_words [] = []
join_words (t ∷ []) = t
join_words (t ∷ u ∷ rest) = t ++ (codes " " ++ join_words (u ∷ rest))

abbrev pub is_single : List Text → Bool
is_single (t ∷ []) = true
is_single _ = false

abbrev pub cmd_command : List Text → Found
cmd_command [] = uncertain (codes "cmd /c is missing a command.")
cmd_command (t ∷ rest) =
    if is_single (t ∷ rest) && is_windows_absolute_path (join_words (t ∷ rest))
    then record nothing { uncertainties = outside_repo_target (join_words (t ∷ rest)) ∷ [] }
    else nested_command (join_words (t ∷ rest))

unfoldable pub cmd_words : List Text → Found
cmd_words [] = nothing
cmd_words (t ∷ rest) =
    let more = cmd_words rest in
    if one_of (lower t) ("/c" ∷ "-c" ∷ []) then cmd_command rest else more

abbrev pub is_powershell : Text → Bool
is_powershell s = one_of s ("powershell" ∷ "powershell.exe" ∷ "pwsh" ∷ "pwsh.exe" ∷ [])

abbrev pub is_cmd : Text → Bool
is_cmd s = one_of s ("cmd" ∷ "cmd.exe" ∷ [])

module _ (lexing : Lexing) where
  abbrev pub powershell_command : List Text → Found
  powershell_command [] = uncertain (codes "PowerShell -Command flag is missing a command.")
  powershell_command (t ∷ rest) =
      if is_windows_absolute_path t
      then record nothing { uncertainties = outside_repo_target t ∷ [] }
      else if is_local_path_token lexing t
      then one_target t
      else nested_command t

  unfoldable pub powershell_words : List Text → Found
  powershell_words [] = nothing
  powershell_words (t ∷ rest) =
      let more = powershell_words rest in
      if one_of (lower t) ("-file" ∷ "-f" ∷ [])
      then powershell_file rest
      else if one_of (lower t) ("-command" ∷ "-c" ∷ [])
      then powershell_command rest
      else more

  -- `extract_windows_shell_targets`
  unfoldable pub extract_windows_shell_targets : List Text → Found
  extract_windows_shell_targets [] = nothing
  extract_windows_shell_targets (t ∷ rest) =
      if is_powershell (lower t)
      then powershell_words rest
      else if is_cmd (lower t)
      then cmd_words rest
      else nothing
