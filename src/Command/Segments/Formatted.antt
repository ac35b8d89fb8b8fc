-- ===== src/Command/Segments/Formatted.antt =====
-- A formatted argv is one segment.
use mathlib.Core.List.{append-nil, append_assoc}
use codex_preflight.Base.{
  ℕ, ◌≡◌, refl, sym, ◌∙◌, ap, Bool, true, false, ◌||◌, Option, none, some, List, [], ◌∷◌, ◌++◌,
  arith, ◌==◌, nat_eq, Text, all, Bool-cases, ◌⊎◌, inl, inr, if◌then◌else◌,
}
use codex_preflight.Command.Words.{
  shlex_safe, escape_char, escape_quotes, shlex_quote, format_argv_for_preflight,
}
use codex_preflight.Command.Segments.{
  toggle, copy, action, segment_loop, append_segment, split_shell_segments, head_of, toggle_quote,
}

-- From outside of quotes the text leads back there, and is copied whole, whatever follows.
abbrev IsClosed : Text → Type 0
IsClosed t =
    (segments : List Text) (current rest : Text)
    → segment_loop (t ++ rest) segments current none false
      ≡ segment_loop rest segments (current ++ t) none false

IsClosed-append : (s t : Text) → IsClosed s → IsClosed t → IsClosed (s ++ t)
IsClosed-append s t hs ht segments current rest =
    rw append_assoc
      (hs segments current (t ++ rest) ∙ ht segments (current ++ s) rest ∙ rw append_assoc refl)

nil-IsClosed : IsClosed []
nil-IsClosed segments current rest = rw append-nil refl

-- A character that is neither a quote nor part of a separator.
abbrev plain_char : ℕ → Bool
plain_char c = shlex_safe c || c == b' '

plain_action : (c : ℕ) (next : Option ℕ) → plain_char c ≡ true → action none c next ≡ copy
unfolding action
plain_action c next h = ground arith

copy_step :
    (c : ℕ) (s : Text) (segments : List Text) (current : Text) (quote : Option ℕ)
    → action quote c (head_of s) ≡ copy
    → segment_loop (c ∷ s) segments current quote false
      ≡ segment_loop s segments (current ++ (c ∷ [])) quote false
unfolding segment_loop
copy_step c s segments current quote h = rw (h, segment_loop) refl

toggle_step :
    (c : ℕ) (s : Text) (segments : List Text) (current : Text) (quote : Option ℕ)
    → action quote c (head_of s) ≡ toggle
    → segment_loop (c ∷ s) segments current quote false
      ≡ segment_loop s segments (current ++ (c ∷ [])) (toggle_quote quote c) false
unfolding segment_loop
toggle_step c s segments current quote h = rw (h, segment_loop) refl

plain-IsClosed : (c : ℕ) → plain_char c ≡ true → IsClosed (c ∷ [])
plain-IsClosed c h segments current rest =
    copy_step c rest segments current none (plain_action c (head_of rest) h)

safe-IsClosed : (s : Text) → all shlex_safe s ≡ true → IsClosed s
safe-IsClosed [] h = nil-IsClosed
safe-IsClosed (c ∷ s) h =
    IsClosed-append (c ∷ []) s (plain-IsClosed c (ground arith)) (safe-IsClosed s (ground arith))

-- Within single quotes every character but the quote is copied.
inside_action :
    (c : ℕ) (next : Option ℕ)
    → (c == b'\'') ≡ false
    → (action (some b'\'') c next ≡ copy)
      ⊎ ((action (some b'\'') c next ≡ toggle) × (toggle_quote (some b'\'') c ≡ some b'\''))
unfolding action
inside_action c next h = ground arith

abbrev inside : Text → List Text → Text → List Text
inside s segments current = segment_loop s segments current (some b'\'') false

inside_other :
    (c : ℕ) (s : Text) (segments : List Text) (current : Text)
    → (c == b'\'') ≡ false
    → inside (c ∷ s) segments current ≡ inside s segments (current ++ (c ∷ []))
inside_other c s segments current e = elim (inside_action c (head_of s) e) [
  | inl copied ↦ copy_step c s segments current (some b'\'') copied
  | inr (toggled, kept) ↦
      toggle_step c s segments current (some b'\'') toggled
      ∙ ap (λ q. segment_loop s segments (current ++ (c ∷ [])) q false) kept
]

-- `'"'"'` leaves the single quotes, writes one in double quotes and returns.
inside_quote :
    (s : Text) (segments : List Text) (current : Text)
    → inside (escape_char b'\'' ++ s) segments current
      ≡ inside s segments (
          ((((current ++ (b'\'' ∷ [])) ++ (b'"' ∷ [])) ++ (b'\'' ∷ [])) ++ (b'"' ∷ []))
          ++ (b'\'' ∷ []))
unfolding segment_loop action
inside_quote s segments current = refl

five_append :
    (current : Text) (a b c d e : ℕ)
    → ((((current ++ (a ∷ [])) ++ (b ∷ [])) ++ (c ∷ [])) ++ (d ∷ [])) ++ (e ∷ [])
      ≡ current ++ (a ∷ b ∷ c ∷ d ∷ e ∷ [])
five_append current a b c d e = simp append_assoc

inside_char :
    (c : ℕ) (s : Text) (segments : List Text) (current : Text)
    → inside (escape_char c ++ s) segments current ≡ inside s segments (current ++ escape_char c)
inside_char c s segments current = elim (Bool-cases (c == b'\'')) [
  | inl e ↦ rw ((nat_eq.beq_iff c b'\'').0 e) (
      inside_quote s segments current
      ∙ ap (inside s segments) (five_append current b'\'' b'"' b'\'' b'"' b'\''))
  | inr e ↦ rw e (inside_other c s segments current e)
]

inside_text :
    (w s : Text) (segments : List Text) (current : Text)
    → inside (escape_quotes w ++ s) segments current
      ≡ inside s segments (current ++ escape_quotes w)
inside_text [] s segments current = rw append-nil refl
inside_text (c ∷ w) s segments current = rw append_assoc (
    inside_char c (escape_quotes w ++ s) segments current
    ∙ inside_text w s segments (current ++ escape_char c)
    ∙ rw append_assoc refl)

opening :
    (s : Text) (segments : List Text) (current : Text)
    → segment_loop (b'\'' ∷ s) segments current none false
      ≡ inside s segments (current ++ (b'\'' ∷ []))
unfolding segment_loop action
opening s segments current = refl

closing :
    (s : Text) (segments : List Text) (current : Text)
    → inside (b'\'' ∷ s) segments current
      ≡ segment_loop s segments (current ++ (b'\'' ∷ [])) none false
unfolding segment_loop action
closing s segments current = refl

quoted-IsClosed : (w : Text) → IsClosed (b'\'' ∷ (escape_quotes w ++ (b'\'' ∷ [])))
quoted-IsClosed w segments current rest =
    ap (λ t. segment_loop (b'\'' ∷ t) segments current none false)
      (append_assoc (escape_quotes w) (b'\'' ∷ []) rest)
    ∙ opening (escape_quotes w ++ (b'\'' ∷ rest)) segments current
    ∙ inside_text w (b'\'' ∷ rest) segments (current ++ (b'\'' ∷ []))
    ∙ closing rest segments ((current ++ (b'\'' ∷ [])) ++ escape_quotes w)
    ∙ ap (λ t. segment_loop rest segments t none false)
        (append_assoc (current ++ (b'\'' ∷ [])) (escape_quotes w) (b'\'' ∷ [])
          ∙ append_assoc current (b'\'' ∷ []) (escape_quotes w ++ (b'\'' ∷ [])))

word-IsClosed :
    (w : Text) (b : Bool)
    → all shlex_safe w ≡ b
    → IsClosed (if b then w else b'\'' ∷ (escape_quotes w ++ (b'\'' ∷ [])))
word-IsClosed w true safe = safe-IsClosed w safe
word-IsClosed w false other = quoted-IsClosed w

shlex_quote-IsClosed : (w : Text) → IsClosed (shlex_quote w)
shlex_quote-IsClosed [] = quoted-IsClosed []
shlex_quote-IsClosed (c ∷ s) = word-IsClosed (c ∷ s) (all shlex_safe (c ∷ s)) refl

format-IsClosed : (args : List Text) → IsClosed (format_argv_for_preflight args)
unfolding format_argv_for_preflight
format-IsClosed [] = nil-IsClosed
format-IsClosed (w ∷ []) = shlex_quote-IsClosed w
format-IsClosed (w ∷ v ∷ args) =
    IsClosed-append (shlex_quote w) (b' ' ∷ format_argv_for_preflight (v ∷ args))
      (shlex_quote-IsClosed w)
      (IsClosed-append (b' ' ∷ []) (format_argv_for_preflight (v ∷ args)) (plain-IsClosed b' ' refl)
        (format-IsClosed (v ∷ args)))

-- A formatted argv has no separator outside of quotes: it is one segment, or none if it is blank.
pub split_shell_segments-format :
    (args : List Text)
    → split_shell_segments (format_argv_for_preflight args)
      ≡ append_segment [] (format_argv_for_preflight args)
unfolding split_shell_segments
split_shell_segments-format args =
    let t = format_argv_for_preflight args in
    ap (λ (x : Text). segment_loop x [] [] none false) (sym (append-nil t))
    ∙ format-IsClosed args [] [] []
    ∙ at_end t
  where
    at_end : (t : Text) → segment_loop [] [] t none false ≡ append_segment [] t
    at_end t = refl
