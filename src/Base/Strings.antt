-- ===== src/Base/Strings.antt =====
-- Python `str` values as lists of code points, where the program walks their characters.
use Prim.Native.Nat.{ℕ, ◌+◌}
use Prim.Native.Char.{code}
use Prim.Native.String.{String}
use mathlib.Core.Bool.{Bool, true, false, ◌&&◌, ◌||◌}
use mathlib.Core.List.{List, [], ◌∷◌, ◌++◌, reverse}
use codex_preflight.Base.Tests.{leb, if◌then◌else◌}
use codex_preflight.Base.Equality.{◌==◌, nat_eq, list_eq, contains}

abbrev pub Text : Type 0
Text = List ℕ

abbrev pub codes : String → Text
codes String.[] = []
codes (String.◌∷◌ c s) = code c ∷ codes s

-- `s == "w"`
unfoldable pub is_text : Text → String → Bool
is_text s w = s == codes w

-- `s in {"a", "b"}` for a set of literals
unfoldable pub one_of : Text → List String → Bool
unfolding is_text
one_of s [] = false
one_of s (w ∷ ws) = is_text s w || one_of s ws

-- `str.isspace` of one character
unfoldable pub is_space : ℕ → Bool
is_space c =
    leb 0x09 c && leb c 0x0d
    || leb 0x1c c && leb c 0x20
    || contains (0x85 ∷ 0xa0 ∷ 0x1680 ∷ 0x2028 ∷ 0x2029 ∷ 0x202f ∷ 0x205f ∷ 0x3000 ∷ []) c
    || leb 0x2000 c && leb c 0x200a

-- `str.lower`: the letters A to Z, and the two characters beyond ASCII whose lower case has an
-- ASCII letter (U+212A and U+0130). All other characters are kept: their lower case has no ASCII
-- character, and the program compares lowered text with ASCII literals.
unfoldable pub lower_char : ℕ → Text
lower_char c =
    if leb b'A' c && leb c b'Z'
    then (c + 32) ∷ []
    else if c == 0x212a
    then b'k' ∷ []
    else if c == 0x130
    then b'i' ∷ 0x307 ∷ []
    else c ∷ []

unfoldable pub lower : Text → Text
unfolding lower_char
lower [] = []
lower (c ∷ s) = lower_char c ++ lower s

unfoldable pub strip_left : Text → Text
unfolding is_space
strip_left [] = []
strip_left (c ∷ s) = let rest = strip_left s in if is_space c then rest else c ∷ s

-- `s.strip()`
unfoldable pub strip : Text → Text
unfolding strip_left
strip s = reverse (strip_left (reverse (strip_left s)))

unfoldable pub starts_with : Text → Text → Bool
starts_with s [] = true
starts_with [] (p ∷ ps) = false
starts_with (c ∷ s) (p ∷ ps) = c == p && starts_with s ps

-- `needle in s`
unfoldable pub has_infix : Text → Text → Bool
unfolding starts_with
has_infix needle [] = starts_with [] needle
has_infix needle (c ∷ s) = starts_with (c ∷ s) needle || has_infix needle s

-- `s.endswith(suffix)`
unfoldable pub ends_with : Text → Text → Bool
unfolding starts_with
ends_with s suffix = starts_with (reverse s) (reverse suffix)
