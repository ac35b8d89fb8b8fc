-- ===== src/Command/Words.antt =====
-- `split_command_words` of command/java.py, and the quoting of codex_preflight_cli/exec_wrapper.py.
pub mod RoundTrip
use codex_preflight.Base.{
  ℕ, Bool, true, false, ◌&&◌, ◌||◌, Option, none, some, List, [], ◌∷◌, ◌++◌, ◌==◌, nat_eq, Text,
  contains, is_space, all, leb, codes, if◌then◌else◌,
}

-- the local variables of the loop
pub record WordState : Type 0 where
  pub words : List Text
  pub current : Text
  pub quote : Option ℕ
  pub word_started : Bool

abbrev pub quote_chars : List ℕ
quote_chars = b'\'' ∷ b'"' ∷ []

-- a character outside of quotes
abbrev pub unquoted_step : WordState → ℕ → WordState
unquoted_step st c =
    if contains quote_chars c
    then record st { quote = some c; word_started = true }
    else if is_space c
    then (if st.word_started
        then record st { words = st.words ++ (st.current ∷ []); current = []; word_started = false }
        else st)
    else record st { current = st.current ++ (c ∷ []); word_started = true }

-- a character inside of quotes
abbrev pub quoted_step : WordState → ℕ → ℕ → WordState
quoted_step st q c =
    if c == q
    then record st { quote = none; word_started = true }
    else record st { current = st.current ++ (c ∷ []); word_started = true }

unfoldable pub word_step : WordState → ℕ → WordState
unfolding is_space
word_step st c = elim st.quote [ none ↦ unquoted_step st c | some q ↦ quoted_step st q c ]

unfoldable pub run_words : WordState → Text → WordState
unfolding word_step
run_words st [] = st
run_words st (c ∷ s) = run_words (word_step st c) s

abbrev pub finish_words : WordState → List Text
finish_words st = if st.word_started then st.words ++ (st.current ∷ []) else st.words

abbrev pub no_words : WordState
no_words = record { words = []; current = []; quote = none; word_started = false }

unfoldable pub split_command_words : Text → List Text
unfolding run_words
split_command_words command = finish_words (run_words no_words command)

-- Python's `shlex.quote`: a character outside of `[\w@%+=:,./-]` (ASCII) asks for quotes.
abbrev pub shlex_safe : ℕ → Bool
shlex_safe c =
    leb b'a' c && leb c b'z'
    || leb b'A' c && leb c b'Z'
    || leb b'0' c && leb c b'9'
    || contains (codes "_@%+=:,./-") c

-- `s.replace("'", "'\"'\"'")`
abbrev pub escape_char : ℕ → Text
escape_char c = if c == b'\'' then b'\'' ∷ b'"' ∷ b'\'' ∷ b'"' ∷ b'\'' ∷ [] else c ∷ []

abbrev pub escape_quotes : Text → Text
escape_quotes [] = []
escape_quotes (c ∷ s) = escape_char c ++ escape_quotes s

abbrev pub shlex_quote : Text → Text
shlex_quote [] = b'\'' ∷ b'\'' ∷ []
shlex_quote (c ∷ s) =
    if all shlex_safe (c ∷ s) then c ∷ s else b'\'' ∷ (escape_quotes (c ∷ s) ++ (b'\'' ∷ []))

-- `format_argv_for_preflight`: `shlex.join`
unfoldable pub format_argv_for_preflight : List Text → Text
format_argv_for_preflight [] = []
format_argv_for_preflight (w ∷ []) = shlex_quote w
format_argv_for_preflight (w ∷ v ∷ ws) =
    shlex_quote w ++ (b' ' ∷ format_argv_for_preflight (v ∷ ws))
