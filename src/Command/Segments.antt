-- ===== src/Command/Segments.antt =====
-- `split_shell_segments` of command/classifier.py.
pub mod Formatted
use codex_preflight.Base.{
  ℕ, Bool, true, false, ◌&&◌, ◌||◌, not, Option, none, some, List, [], ◌∷◌, ◌++◌, ◌==◌, nat_eq,
  option_eq, Text, strip, if◌then◌else◌,
}
use codex_preflight.Command.Words.{quote_chars}

-- What the loop does at a character, by the quote it is in and the character that follows.
pub data Action : Type 0 where
  toggle cut cut_two copy : Action

-- `char + next_char in {"&&", "||"}`
abbrev pub is_pair : ℕ → Option ℕ → Bool
is_pair c next = c == b'&' && next == some b'&' || c == b'|' && next == some b'|'

abbrev pub is_none {ℓ} : {A : Type ℓ} → Option A → Bool
is_none none = true
is_none (some _) = false

unfoldable pub action : Option ℕ → ℕ → Option ℕ → Action
action quote c next =
    if c == b'\'' || c == b'"'
    then toggle
    else if is_none quote && c == 0x0a
    then cut
    else if is_none quote && (c == b';' && not (next == some b';'))
    then cut
    else if is_none quote && is_pair c next
    then cut_two
    else copy

-- `None if quote == char else char if quote is None else quote`
abbrev pub toggle_quote : Option ℕ → ℕ → Option ℕ
toggle_quote none c = some c
toggle_quote (some q) c = if q == c then none else some q

-- `_append_segment`
unfoldable pub append_segment : List Text → Text → List Text
append_segment segments current = elim (strip current) [
  | [] ↦ segments
  | c ∷ s ↦ segments ++ ((c ∷ s) ∷ [])
]

abbrev pub head_of : Text → Option ℕ
head_of [] = none
head_of (c ∷ s) = some c

-- The loop; `skip` passes over the second character of `&&` or `||` (`index += 2`).
unfoldable pub segment_loop : Text → List Text → Text → Option ℕ → Bool → List Text
segment_loop [] segments current quote skip = append_segment segments current
segment_loop (c ∷ s) segments current quote true = segment_loop s segments current quote false
segment_loop (c ∷ s) segments current quote false = elim (action quote c (head_of s)) [
  | toggle ↦ segment_loop s segments (current ++ (c ∷ [])) (toggle_quote quote c) false
  | cut ↦ segment_loop s (append_segment segments current) [] quote false
  | cut_two ↦ segment_loop s (append_segment segments current) [] quote true
  | copy ↦ segment_loop s segments (current ++ (c ∷ [])) quote false
]

unfoldable pub split_shell_segments : Text → List Text
unfolding segment_loop append_segment action
split_shell_segments command = segment_loop command [] [] none false
