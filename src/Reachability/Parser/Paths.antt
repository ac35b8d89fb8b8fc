-- ===== src/Reachability/Parser/Paths.antt =====
-- codex_preflight_core/reachability/command_parser.py: tokens and paths.
use codex_preflight.Base.{
  ℕ, Bool, true, false, ◌&&◌, ◌||◌, not, Option, String, List, [], ◌∷◌, Text, codes, ◌==◌, nat_eq,
  string_eq, list_eq, contains, is_text, one_of, lower, strip, starts_with, has_infix, leb, length,
  drop, all, if◌then◌else◌,
}
use mathlib.Core.List.{reverse}

-- `shlex.split(…, posix=False)`, `none` where it fails; `str.split`; `PurePosixPath(…).suffix`; and
-- `str.isalnum` of one character.
pub record Lexing : Type 0 where
  pub shlex_split : Text → Option (List Text)
  pub split : Text → List Text
  pub suffix : Text → Text
  pub is_alnum : ℕ → Bool

pub record CommandTarget : Type 0 where
  pub target : Text
  pub reason : Text

pub record CommandUncertainty : Type 0 where
  pub rule_id : String
  pub reason : Text

-- `_parse_uncertain`
abbrev pub parse_uncertain_reason : Text → CommandUncertainty
parse_uncertain_reason reason = record { rule_id = "SCRIPT_PARSE_UNCERTAIN"; reason = reason }

abbrev pub is_quote : ℕ → Bool
is_quote c = c == b'"' || c == 39

unfoldable pub strip_quotes_left : Text → Text
strip_quotes_left [] = []
strip_quotes_left (c ∷ s) = let rest = strip_quotes_left s in if is_quote c then rest else c ∷ s

-- `token.strip("\"'")`
unfoldable pub strip_quotes : Text → Text
unfolding strip_quotes_left
strip_quotes s = reverse (strip_quotes_left (reverse (strip_quotes_left s)))

-- `s.replace("\\", "/")`
unfoldable pub forward_slashes : Text → Text
forward_slashes [] = []
forward_slashes (c ∷ s) = (if c == 92 then b'/' else c) ∷ forward_slashes s

abbrev pub without_dot : Text → Text
without_dot s = if starts_with s (codes "./") then drop 2 s else s

-- `normalize_repo_path_token`
unfoldable pub normalize_repo_path_token : Text → Text
unfolding strip strip_quotes forward_slashes starts_with
normalize_repo_path_token token = without_dot (forward_slashes (strip_quotes (strip token)))

abbrev pub is_letter : ℕ → Bool
is_letter c = leb b'A' c && leb c b'Z' || leb b'a' c && leb c b'z'

-- `WINDOWS_DRIVE_ABSOLUTE`
abbrev pub has_drive : Text → Bool
has_drive (c ∷ d ∷ e ∷ s) = is_letter c && d == b':' && (e == 92 || e == b'/')
has_drive _ = false

-- `is_windows_absolute_path`
unfoldable pub is_windows_absolute_path : Text → Bool
unfolding strip strip_quotes
is_windows_absolute_path token = has_drive (strip_quotes (strip token))

-- `_outside_repo`
abbrev pub outside_repo_target : Text → CommandUncertainty
outside_repo_target target = record {
  rule_id = "SCRIPT_TARGET_OUTSIDE_REPO";
  reason = normalize_repo_path_token target;
}

-- `SCRIPT_EXTENSIONS`
abbrev pub script_extensions : List String
script_extensions =
    ".sh" ∷ ".bash" ∷ ".zsh" ∷ ".ps1" ∷ ".bat" ∷ ".cmd" ∷ ".py" ∷ ".js" ∷ ".mjs" ∷ ".cjs" ∷ ".ts"
    ∷ ".tsx" ∷ []

abbrev pub is_empty : Text → Bool
is_empty [] = true
is_empty (c ∷ s) = false

module _ (lexing : Lexing) where
  -- The rest of `_is_local_path_token`, on the normalized token.
  abbrev pub is_local_normalized : Text → Bool
  is_local_normalized s =
      if is_empty s || has_infix (codes "://") s
      then false
      else if starts_with s (codes "/") || starts_with s (codes "~")
      then false
      else if starts_with s (codes "../") || starts_with s (codes "./")
      then true
      else if has_infix (codes "/") s
      then true
      else one_of (lower (lexing.suffix s)) script_extensions

  -- `_is_local_path_token`
  unfoldable pub is_local_path_token : Text → Bool
  is_local_path_token token =
      if is_windows_absolute_path token
      then false
      else is_local_normalized (normalize_repo_path_token token)

  unfoldable pub key_of : Text → Text
  key_of [] = []
  key_of (c ∷ s) = let rest = key_of s in if c == b'=' then [] else c ∷ rest

  unfoldable pub without_underscores : Text → Text
  without_underscores [] = []
  without_underscores (c ∷ s) =
      let rest = without_underscores s in if c == b'_' then rest else c ∷ rest

  -- `_is_env_assignment`
  unfoldable pub is_env_assignment : Text → Bool
  unfolding key_of without_underscores
  is_env_assignment token =
      if not (contains token b'=') || starts_with token (codes "=")
      then false
      else not (is_empty (without_underscores (key_of token)))
        && all lexing.is_alnum (without_underscores (key_of token))

  -- The words of `env` that stand alone, `-u` with its value in one word, and assignments.
  abbrev pub is_env_word : Text → Bool
  is_env_word t =
      one_of t ("-i" ∷ "-" ∷ "--ignore-environment" ∷ "--null" ∷ "-0" ∷ [])
      || starts_with t (codes "-u") && leb 3 (length t)
      || is_env_assignment t

  abbrev pub is_unset : Text → Bool
  is_unset t = one_of t ("-u" ∷ "--unset" ∷ [])

  -- The loop of `unwrap_env_command`; the flag says that the next word is the value of `-u`.
  unfoldable pub unwrap_env_words : Bool → List Text → List Text
  unwrap_env_words skip [] = []
  unwrap_env_words true (t ∷ rest) = unwrap_env_words false rest
  unwrap_env_words false (t ∷ rest) =
      let more = unwrap_env_words (is_unset t) rest in
      if is_text t "--" then rest else if is_unset t || is_env_word t then more else t ∷ rest

  -- `unwrap_env_command`
  unfoldable pub unwrap_env_command : List Text → List Text
  unfolding unwrap_env_words
  unwrap_env_command [] = []
  unwrap_env_command (t ∷ rest) =
      if is_text (lower t) "env" then unwrap_env_words false rest else t ∷ rest
