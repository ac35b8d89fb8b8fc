-- ===== src/Reachability/Parser/Parsed/Prefix.antt =====
-- codex_preflight_core/reachability/command_parser.py: what may stand between `env` and its command.
use codex_preflight.Base.{
  ℕ, suc, ◌≡◌, inl, inr, refl, ap, sym, ◌∙◌, Bool, true, false, ◌&&◌, ◌||◌, not, String, List, [],
  ◌∷◌, ◌++◌, arith, Text, codes, ◌==◌, nat_eq, string_eq, list_eq, list_eqb_iff, is_text, one_of,
  starts_with, lower, length, all, contains, contains-append, Bool-cases, length-append,
}
use codex_preflight.Reachability.Parser.Paths.{
  Lexing, is_empty, is_env_assignment, key_of, without_underscores, unwrap_env_command,
  unwrap_env_words,
}
use codex_preflight.Reachability.Parser.Parsed.{clean, parse_tokens}

-- The flags of `env` that the parser knows and that stand alone.
pub data Flag : Type 0 where
  ignore_short ignore_dash ignore_long null_long null_short : Flag

abbrev pub flag_text : Flag → Text
flag_text ignore_short = codes "-i"
flag_text ignore_dash = codes "-"
flag_text ignore_long = codes "--ignore-environment"
flag_text null_long = codes "--null"
flag_text null_short = codes "-0"

module _ (lexing : Lexing) where
  abbrev pub is_name_char : ℕ → Bool
  is_name_char c = lexing.is_alnum c || c == b'_'

  -- A name: letters, digits and underscores, at least one of them no underscore.
  abbrev pub has_alnum : Text → Bool
  has_alnum [] = false
  has_alnum (c ∷ s) = lexing.is_alnum c && not (c == b'_') || has_alnum s

  -- The words that may stand between `env` and its command, written out: flags, a variable that is
  -- unset, in one word or in two, and assignments.
  pub data EnvWords : List Text → Type 0 where
    no_words : EnvWords []
    flag : {ws : List Text} (f : Flag) → EnvWords ws → EnvWords (flag_text f ∷ ws)
    unset_joined :
        {ws : List Text} (c : ℕ) (name : Text)
        → EnvWords ws
        → EnvWords ((b'-' ∷ b'u' ∷ c ∷ name) ∷ ws)
    unset_short : {ws : List Text} (name : Text) → EnvWords ws → EnvWords (codes "-u" ∷ name ∷ ws)
    unset_long :
        {ws : List Text} (name : Text) → EnvWords ws → EnvWords (codes "--unset" ∷ name ∷ ws)
    assignment :
        {ws : List Text} (key value : Text)
        → all is_name_char key ≡ true
        → has_alnum key ≡ true
        → EnvWords ws
        → EnvWords ((key ++ (b'=' ∷ value)) ∷ ws)

  -- A word that begins a command: no flag and no assignment.
  abbrev pub begins_command : Text → Bool
  begins_command t = not (starts_with t (codes "-")) && not (contains t b'=')

  contains-text :
      (t : Text) (w : String)
      → contains t b'=' ≡ true
      → contains (codes w) b'=' ≡ false
      → is_text t w ≡ false
  unfolding is_text
  contains-text t w h k = elim (Bool-cases (t == codes w)) [
    | inl e ↦
        let same : t ≡ codes w = (list_eqb_iff t (codes w)).0 e in
        absurd (ground (arith, sym h ∙ ap (λ (s : Text). contains s b'=') same, k))
    | inr e ↦ e
  ]

  module _ (equals_sign : lexing.is_alnum b'=' ≡ false) where
    key_of-append :
        (key value : Text)
        → all is_name_char key ≡ true
        → key_of lexing (key ++ (b'=' ∷ value)) ≡ key
    unfolding key_of
    key_of-append [] value h = refl
    key_of-append (c ∷ key) value h = elim (Bool-cases (c == b'=')) [
      | inl e ↦
          let same : c ≡ b'=' = (nat_eq.beq_iff c b'=').0 e in
          absurd (
            ground
              (arith, h, sym (ap (λ (n : ℕ). lexing.is_alnum n) same) ∙ refl, equals_sign, same))
      | inr e ↦ ground (arith, e, key_of-append key value (ground (arith, h)))
    ]

    without_underscores-all :
        (key : Text)
        → all is_name_char key ≡ true
        → all lexing.is_alnum (without_underscores lexing key) ≡ true
    unfolding without_underscores
    without_underscores-all [] h = refl
    without_underscores-all (c ∷ key) h = ground (arith, h, without_underscores-all key)

    without_underscores-is_empty :
        (key : Text) → has_alnum key ≡ true → is_empty (without_underscores lexing key) ≡ false
    unfolding without_underscores
    without_underscores-is_empty [] h = absurd (ground (arith, h))
    without_underscores-is_empty (c ∷ key) h = ground (arith, h, without_underscores-is_empty key)

    contains-equals : (key value : Text) → contains (key ++ (b'=' ∷ value)) b'=' ≡ true
    contains-equals key value = rw (contains-append key (b'=' ∷ value) b'=') (ground arith)

    starts-equals :
        (key value : Text)
        → all is_name_char key ≡ true
        → has_alnum key ≡ true
        → starts_with (key ++ (b'=' ∷ value)) (codes "=") ≡ false
    unfolding starts_with
    starts-equals [] value h k = absurd (ground (arith, k))
    starts-equals (c ∷ key) value h k = elim (Bool-cases (c == b'=')) [
      | inl e ↦
          let same : c ≡ b'=' = (nat_eq.beq_iff c b'=').0 e in
          absurd (ground (arith, h, ap (λ (n : ℕ). lexing.is_alnum n) same, equals_sign, same))
      | inr e ↦ ground (arith, e)
    ]

    assignment-word :
        (key value : Text)
        → all is_name_char key ≡ true
        → has_alnum key ≡ true
        → is_env_assignment lexing (key ++ (b'=' ∷ value)) ≡ true
    unfolding is_env_assignment
    assignment-word key value h k =
        rw
          (
            contains-equals key value,
            starts-equals key value h k,
            key_of-append key value h,
            without_underscores-all key h,
            without_underscores-is_empty key k,
          )
          refl

    -- The words are taken off.
    unwrap_env_words-flag :
        (f : Flag) (rest : List Text)
        → unwrap_env_words lexing false (flag_text f ∷ rest) ≡ unwrap_env_words lexing false rest
    unfolding unwrap_env_words is_text one_of starts_with is_env_assignment
    unwrap_env_words-flag ignore_short rest = refl
    unwrap_env_words-flag ignore_dash rest = refl
    unwrap_env_words-flag ignore_long rest = refl
    unwrap_env_words-flag null_long rest = refl
    unwrap_env_words-flag null_short rest = refl

    unwrap_env_words-unset :
        (name : Text) (rest : List Text)
        → (unwrap_env_words lexing false (codes "-u" ∷ name ∷ rest)
            ≡ unwrap_env_words lexing false rest)
          × (unwrap_env_words lexing false (codes "--unset" ∷ name ∷ rest)
              ≡ unwrap_env_words lexing false rest)
    unfolding unwrap_env_words is_text one_of starts_with is_env_assignment
    unwrap_env_words-unset name rest = (refl, refl)

    unwrap_env_words-joined :
        (c : ℕ) (name : Text) (rest : List Text)
        → unwrap_env_words lexing false ((b'-' ∷ b'u' ∷ c ∷ name) ∷ rest)
          ≡ unwrap_env_words lexing false rest
    unfolding unwrap_env_words is_text one_of starts_with
    unwrap_env_words-joined c name rest = ground arith

    unwrap_env_words-assignment :
        (key value : Text) (rest : List Text)
        → all is_name_char key ≡ true
        → has_alnum key ≡ true
        → unwrap_env_words lexing false ((key ++ (b'=' ∷ value)) ∷ rest)
          ≡ unwrap_env_words lexing false rest
    unfolding unwrap_env_words one_of
    unwrap_env_words-assignment key value rest h k =
        let w = key ++ (b'=' ∷ value) in
        let e = contains-equals key value in
        rw
          (
            contains-text w "--" e refl,
            contains-text w "-u" e refl,
            contains-text w "--unset" e refl,
            assignment-word key value h k,
          )
          (ground arith)

    plain_word :
        (t : Text)
        → begins_command t ≡ true
        → (w : String) → starts_with (codes w) (codes "-") ≡ true
        → is_text t w ≡ false
    unfolding is_text
    plain_word t h w k = elim (Bool-cases (t == codes w)) [
      | inl e ↦
          let same : t ≡ codes w = (list_eqb_iff t (codes w)).0 e in
          absurd
            (ground (arith, h, sym k ∙ ap (λ (s : Text). starts_with s (codes "-")) (sym same)))
      | inr e ↦ e
    ]

    starts-unset :
        (t : Text) → starts_with t (codes "-") ≡ false → starts_with t (codes "-u") ≡ false
    unfolding starts_with
    starts-unset [] h = refl
    starts-unset (c ∷ t) h = ground (arith, h)

    unwrap_env_words-begins :
        (t : Text) (rest : List Text)
        → begins_command t ≡ true
        → unwrap_env_words lexing false (t ∷ rest) ≡ t ∷ rest
    unfolding unwrap_env_words one_of is_env_assignment starts_with
    unwrap_env_words-begins t rest h =
        rw
          (
            plain_word t h "--" refl,
            plain_word t h "-u" refl,
            plain_word t h "--unset" refl,
            plain_word t h "-i" refl,
            plain_word t h "-" refl,
            plain_word t h "--ignore-environment" refl,
            plain_word t h "--null" refl,
            plain_word t h "-0" refl,
            starts-unset t (ground (arith, h)),
          )
          (ground (arith, h))

    unwrap_env_words-EnvWords :
        (ws : List Text) (t : Text) (rest : List Text)
        → EnvWords ws
        → begins_command t ≡ true
        → unwrap_env_words lexing false (ws ++ (t ∷ rest)) ≡ t ∷ rest
    unwrap_env_words-EnvWords [] t rest no_words h = unwrap_env_words-begins t rest h
    unwrap_env_words-EnvWords (_ ∷ ws) t rest (flag f w) h =
        unwrap_env_words-flag f (ws ++ (t ∷ rest)) ∙ unwrap_env_words-EnvWords ws t rest w h
    unwrap_env_words-EnvWords (_ ∷ ws) t rest (unset_joined c name w) h =
        unwrap_env_words-joined c name (ws ++ (t ∷ rest)) ∙ unwrap_env_words-EnvWords ws t rest w h
    unwrap_env_words-EnvWords (_ ∷ _ ∷ ws) t rest (unset_short name w) h =
        (unwrap_env_words-unset name (ws ++ (t ∷ rest))).0 ∙ unwrap_env_words-EnvWords ws t rest w h
    unwrap_env_words-EnvWords (_ ∷ _ ∷ ws) t rest (unset_long name w) h =
        (unwrap_env_words-unset name (ws ++ (t ∷ rest))).1 ∙ unwrap_env_words-EnvWords ws t rest w h
    unwrap_env_words-EnvWords (_ ∷ ws) t rest (assignment key value n k w) h =
        unwrap_env_words-assignment key value (ws ++ (t ∷ rest)) n k
        ∙ unwrap_env_words-EnvWords ws t rest w h

    different :
        (e : Text) (words : List Text) (t : Text) (rest : List Text)
        → (t ∷ rest == e ∷ (words ++ (t ∷ rest))) ≡ false
    different e words t rest = elim (Bool-cases (t ∷ rest == e ∷ (words ++ (t ∷ rest)))) [
      | inl q ↦
          let same = (list_eqb_iff (t ∷ rest) (e ∷ (words ++ (t ∷ rest)))).0 q in
          absurd
            (omega (arith, ap (λ (l : List Text). length l) same, length-append words (t ∷ rest)))
      | inr q ↦ q
    ]

    unwrap_env_command-EnvWords :
        (e : Text) (ws : List Text) (t : Text) (rest : List Text)
        → is_text (lower e) "env" ≡ true
        → EnvWords ws
        → begins_command t ≡ true
        → unwrap_env_command lexing (e ∷ (ws ++ (t ∷ rest))) ≡ t ∷ rest
    unfolding unwrap_env_command
    unwrap_env_command-EnvWords e ws t rest n w h = rw (n) (unwrap_env_words-EnvWords ws t rest w h)

    -- `env`, in any case of its letters, with flags of the list Flag, variables unset in one word or two
    -- and assignments to names hides nothing: in front of a word without a leading dash and without an
    -- equals sign, and where no word is quoted or empty, it is parsed as that command alone is, with one
    -- call less. The equals sign is no letter and no digit for str.isalnum.
    pub parse_tokens-unwrap_env_command :
        (depth : ℕ) (e : Text) (ws : List Text) (t : Text) (rest : List Text)
        → is_text (lower e) "env" ≡ true
        → EnvWords ws
        → begins_command t ≡ true
        → clean lexing (e ∷ (ws ++ (t ∷ rest))) ≡ e ∷ (ws ++ (t ∷ rest))
        → parse_tokens lexing (suc depth) (e ∷ (ws ++ (t ∷ rest)))
          ≡ parse_tokens lexing depth (t ∷ rest)
    unfolding parse_tokens
    parse_tokens-unwrap_env_command depth e ws t rest n w h c =
        rw (c, unwrap_env_command-EnvWords e ws t rest n w h, different e ws t rest) refl
