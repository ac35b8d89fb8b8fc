-- ===== src/Command/Words/RoundTrip.antt =====
-- The words of a quoted argv are the argv.
use mathlib.Core.List.{append-nil, append_assoc}
use codex_preflight.Base.{
  ℕ, ◌≡◌, refl, ◌∙◌, ap, Bool, true, false, Option, none, some, List, [], ◌∷◌, ◌++◌, arith, ◌==◌,
  nat_eq, Text, contains, is_space, all, Bool-cases, inl, inr,
}
use codex_preflight.Command.Words.{
  WordState, word_step, run_words, finish_words, split_command_words, quote_chars, shlex_safe,
  escape_char, escape_quotes, shlex_quote, format_argv_for_preflight, unquoted_step,
}

pub run_words-append :
    (st : WordState) (s t : Text) → run_words st (s ++ t) ≡ run_words (run_words st s) t
unfolding run_words
run_words-append st [] t = refl
run_words-append st (c ∷ s) t = run_words-append (word_step st c) s t

abbrev state : List Text → Text → Option ℕ → WordState
state ws cur q = record { words = ws; current = cur; quote = q; word_started = true }

run_words-escape_char :
    (ws : List Text) (cur : Text) (c : ℕ)
    → run_words (state ws cur (some b'\'')) (escape_char c)
      ≡ state ws (cur ++ (c ∷ [])) (some b'\'')
unfolding run_words
run_words-escape_char ws cur c = elim (Bool-cases (c == b'\'')) [
  | inl e ↦ let same = (nat_eq.beq_iff c b'\'').0 e in rw (e, same) refl
  | inr e ↦ rw (e, word_step) (rw e refl)
]

-- Inside of single quotes the escaped text adds the text.
run_words-escape_quotes :
    (ws : List Text) (cur s : Text)
    → run_words (state ws cur (some b'\'')) (escape_quotes s) ≡ state ws (cur ++ s) (some b'\'')
run_words-escape_quotes ws cur [] = rw append-nil (unfold run_words in refl)
run_words-escape_quotes ws cur (c ∷ s) =
    run_words-append _ (escape_char c) (escape_quotes s)
    ∙ rw
        (
          run_words-escape_char ws cur c,
          run_words-escape_quotes ws (cur ++ (c ∷ [])) s,
          append_assoc,
        )
        refl

-- A safe character is no quote and no space.
pub shlex_safe_plain :
    (c : ℕ) → shlex_safe c ≡ true → (contains quote_chars c ≡ false) × (is_space c ≡ false)
unfolding is_space
shlex_safe_plain c h = ground arith

safe_step :
    (ws : List Text) (cur : Text) (b : Bool) (c : ℕ)
    → shlex_safe c ≡ true
    → word_step (record { words = ws; current = cur; quote = none; word_started = b }) c
      ≡ state ws (cur ++ (c ∷ [])) none
unfolding word_step
safe_step ws cur b c h =
    let (quotes, space) = shlex_safe_plain c h in rw (quotes, unquoted_step) (rw space refl)

run_words-safe :
    (ws : List Text) (cur s : Text)
    → all shlex_safe s ≡ true
    → run_words (state ws cur none) s ≡ state ws (cur ++ s) none
unfolding run_words
run_words-safe ws cur [] h = rw append-nil refl
run_words-safe ws cur (c ∷ s) h =
    rw (safe_step ws cur true c (ground arith))
      (run_words-safe ws (cur ++ (c ∷ [])) s (ground arith) ∙ rw append_assoc refl)

-- between two words
abbrev fresh : List Text → WordState
fresh ws = record { words = ws; current = []; quote = none; word_started = false }

safe_word :
    (ws : List Text) (c : ℕ) (s : Text)
    → all shlex_safe (c ∷ s) ≡ true
    → run_words (fresh ws) (c ∷ s) ≡ state ws (c ∷ s) none
unfolding run_words
safe_word ws c s h =
    ap (λ st. run_words st s) (safe_step ws [] false c (ground arith))
    ∙ run_words-safe ws (c ∷ []) s (ground arith)

quoted_word :
    (ws : List Text) (w : Text)
    → run_words (fresh ws) (b'\'' ∷ (escape_quotes w ++ (b'\'' ∷ []))) ≡ state ws w none
unfolding run_words
quoted_word ws w =
    run_words-append (state ws [] (some b'\'')) (escape_quotes w) (b'\'' ∷ [])
    ∙ ap (λ st. run_words st (b'\'' ∷ [])) (run_words-escape_quotes ws [] w)

run_words-shlex_quote :
    (ws : List Text) (w : Text) → run_words (fresh ws) (shlex_quote w) ≡ state ws w none
run_words-shlex_quote ws [] = unfold run_words in refl
run_words-shlex_quote ws (c ∷ s) = elim (Bool-cases (all shlex_safe (c ∷ s))) [
  | inl safe ↦ rw safe (safe_word ws c s safe)
  | inr other ↦ rw other (quoted_word ws (c ∷ s))
]

space_step :
    (ws : List Text) (w t : Text)
    → run_words (state ws w none) (b' ' ∷ t) ≡ run_words (fresh (ws ++ (w ∷ []))) t
unfolding run_words
space_step ws w t = refl

format_one :
    (ws : List Text) (w : Text)
    → run_words (fresh ws) (format_argv_for_preflight (w ∷ [])) ≡ state ws w none
unfolding format_argv_for_preflight
format_one ws w = run_words-shlex_quote ws w

words_from :
    (ws args : List Text)
    → finish_words (run_words (fresh ws) (format_argv_for_preflight args)) ≡ ws ++ args
words_from ws [] = rw append-nil (unfold run_words format_argv_for_preflight in refl)
words_from ws (w ∷ []) = ap finish_words (format_one ws w)
words_from ws (w ∷ v ∷ args) =
    ap finish_words (
      format_cons
      ∙ ap (λ st. run_words st (b' ' ∷ format_argv_for_preflight (v ∷ args)))
          (run_words-shlex_quote ws w)
      ∙ space_step ws w (format_argv_for_preflight (v ∷ args)))
    ∙ words_from (ws ++ (w ∷ [])) (v ∷ args)
    ∙ append_assoc ws (w ∷ []) (v ∷ args)
  where
    format_cons :
        run_words (fresh ws) (format_argv_for_preflight (w ∷ v ∷ args))
        ≡ run_words
            (run_words (fresh ws) (shlex_quote w))
            (b' ' ∷ format_argv_for_preflight (v ∷ args))
    format_cons =
        unfold format_argv_for_preflight in
        run_words-append (fresh ws) (shlex_quote w) (b' ' ∷ format_argv_for_preflight (v ∷ args))

-- The classifier's tokenizer reads a formatted argv back, whatever the arguments: spaces, quotes,
-- separators and empty arguments included.
pub split-format : (args : List Text) → split_command_words (format_argv_for_preflight args) ≡ args
unfolding split_command_words
split-format args = words_from [] args
