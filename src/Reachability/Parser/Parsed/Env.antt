-- ===== src/Reachability/Parser/Parsed/Env.antt =====
-- codex_preflight_core/reachability/command_parser.py: `env` in front of a command.
use codex_preflight.Base.{
  ℕ, zero, suc, ◌≤◌, ◌<◌, ◌≡◌, inl, inr, refl, ap, Bool, true, false, not, Option, none, codes,
  one_of, starts_with, List, [], ◌∷◌, arith, is_some, Text, ◌==◌, nat_eq, string_eq, list_eq,
  list_eqb_iff, is_text, lower, map, length, length-keep-le, Bool-cases,
}
use codex_preflight.Reachability.Parser.Paths.{
  Lexing, is_empty, is_unset, is_env_assignment, strip_quotes, unwrap_env_command, unwrap_env_words,
}
use codex_preflight.Reachability.Parser.Parsed.{
  ParsedCommand, clean, parse_reachable_command, parse_tokens, parse_unwrapped, split_words,
}

length-map : (f : Text → Text) (ts : List Text) → length (map f ts) ≡ length ts
length-map f [] = refl
length-map f (t ∷ ts) = omega (arith, length-map f ts)

module _ (lexing : Lexing) where
  length-clean : (ts : List Text) → length (clean lexing ts) ≤ length ts
  unfolding clean
  length-clean ts = omega (
    arith,
    length-keep-le (λ t. not (is_empty t)) (map strip_quotes ts),
    length-map strip_quotes ts,
  )

  length-unwrap_env_words :
      (skip : Bool) (ts : List Text) → length (unwrap_env_words lexing skip ts) ≤ length ts
  unfolding unwrap_env_words
  length-unwrap_env_words skip [] = omega arith
  length-unwrap_env_words true (t ∷ ts) = omega (arith, length-unwrap_env_words false ts)
  length-unwrap_env_words false (t ∷ ts) =
      ground (arith, length-unwrap_env_words (is_unset lexing t) ts)

  -- What `env` is taken off of is shorter.
  unwrap_env_command-shorter :
      (t : Text) (ts : List Text)
      → (unwrap_env_command lexing (t ∷ ts) == t ∷ ts) ≡ false
      → length (unwrap_env_command lexing (t ∷ ts)) ≤ length ts
  unfolding unwrap_env_command
  unwrap_env_command-shorter t ts h = elim (Bool-cases (is_text (lower t) "env")) [
    | inl e ↦ rw (e) (length-unwrap_env_words false ts)
    | inr e ↦
        let same : unwrap_env_command lexing (t ∷ ts) ≡ t ∷ ts = rw (e) refl in
        cc ((list_eqb_iff (unwrap_env_command lexing (t ∷ ts)) (t ∷ ts)).1 same, h)
  ]

  parse_unwrapped-is_some :
      (c : List Text) (m : Option ParsedCommand)
      → (length (unwrap_env_command lexing c) < length c → is_some m ≡ true)
      → is_some (parse_unwrapped lexing c (unwrap_env_command lexing c) m) ≡ true
  parse_unwrapped-is_some [] m k = refl
  parse_unwrapped-is_some (t ∷ ts) m k =
      elim (Bool-cases (unwrap_env_command lexing (t ∷ ts) == t ∷ ts)) [
        | inl e ↦ rw (e) refl
        | inr e ↦ rw (e) (k (omega (arith, unwrap_env_command-shorter t ts e)))
      ]

  parse_unwrapped-same :
      (c : List Text) (m n : Option ParsedCommand)
      → (length (unwrap_env_command lexing c) < length c → m ≡ n)
      → parse_unwrapped lexing c (unwrap_env_command lexing c) m
        ≡ parse_unwrapped lexing c (unwrap_env_command lexing c) n
  parse_unwrapped-same [] m n k = refl
  parse_unwrapped-same (t ∷ ts) m n k =
      elim (Bool-cases (unwrap_env_command lexing (t ∷ ts) == t ∷ ts)) [
        | inl e ↦ rw (e) refl
        | inr e ↦ rw (e) (k (omega (arith, unwrap_env_command-shorter t ts e)))
      ]

  parse_tokens-is_some :
      (fuel : ℕ) (ts : List Text) → length ts < fuel → is_some (parse_tokens lexing fuel ts) ≡ true
  unfolding parse_tokens
  parse_tokens-is_some zero ts h = ground (arith, h)
  parse_tokens-is_some (suc fuel) ts h =
      parse_unwrapped-is_some (clean lexing ts)
        (parse_tokens lexing fuel (unwrap_env_command lexing (clean lexing ts)))
        (λ k.
          parse_tokens-is_some fuel (unwrap_env_command lexing (clean lexing ts))
            (omega (arith, h, k, length-clean ts)))

  parse_tokens-fuel :
      (a b : ℕ) (ts : List Text)
      → length ts < a
      → length ts < b
      → parse_tokens lexing a ts ≡ parse_tokens lexing b ts
  unfolding parse_tokens
  parse_tokens-fuel zero b ts h k = ground (arith, h)
  parse_tokens-fuel (suc a) zero ts h k = ground (arith, k)
  parse_tokens-fuel (suc a) (suc b) ts h k =
      parse_unwrapped-same (clean lexing ts)
        (parse_tokens lexing a (unwrap_env_command lexing (clean lexing ts)))
        (parse_tokens lexing b (unwrap_env_command lexing (clean lexing ts)))
        (λ l.
          parse_tokens-fuel a b (unwrap_env_command lexing (clean lexing ts))
            (omega (arith, h, l, length-clean ts)) (omega (arith, k, l, length-clean ts)))

  -- `env`, a number of times in front of words.
  abbrev pub env_chain : ℕ → List Text → List Text
  env_chain zero ts = ts
  env_chain (suc n) ts = codes "env" ∷ env_chain n ts

  clean-env_chain :
      (n : ℕ) (ts : List Text) → clean lexing (env_chain n ts) ≡ env_chain n (clean lexing ts)
  unfolding clean strip_quotes
  clean-env_chain zero ts = refl
  clean-env_chain (suc n) ts = ap (λ (l : List Text). codes "env" ∷ l) (clean-env_chain n ts)

  unwrap_env_command-env_chain :
      (n : ℕ) (ts : List Text)
      → unwrap_env_command lexing (env_chain (suc (suc n)) ts) ≡ env_chain (suc n) ts
  unfolding unwrap_env_command unwrap_env_words is_text lower one_of starts_with is_env_assignment
  unwrap_env_command-env_chain n ts = refl

  unwrapped-different :
      (ts : List Text) → (unwrap_env_command lexing (codes "env" ∷ ts) == codes "env" ∷ ts) ≡ false
  unfolding unwrap_env_command is_text lower
  unwrapped-different ts =
      elim (Bool-cases (unwrap_env_words lexing false ts == codes "env" ∷ ts)) [
        | inl e ↦
            let same = (list_eqb_iff (unwrap_env_words lexing false ts) (codes "env" ∷ ts)).0 e in
            absurd (
              omega
                (arith, ap (λ (l : List Text). length l) same, length-unwrap_env_words false ts))
        | inr e ↦ e
      ]

  -- As many words `env` as calls are allowed use them up.
  parse_tokens-env_chain : (n : ℕ) (ts : List Text) → parse_tokens lexing n (env_chain n ts) ≡ none
  unfolding parse_tokens
  parse_tokens-env_chain zero ts = refl
  parse_tokens-env_chain (suc zero) ts =
      rw (clean-env_chain (suc zero) ts, unwrapped-different (clean lexing ts)) refl
  parse_tokens-env_chain (suc (suc n)) ts =
      rw
        (
          clean-env_chain (suc (suc n)) ts,
          unwrapped-different (env_chain (suc n) (clean lexing ts)),
          unwrap_env_command-env_chain n (clean lexing ts),
        )
        (parse_tokens-env_chain (suc n) (clean lexing ts))

  -- Where Python allows more nested calls than the text has words, parse_reachable_command returns a
  -- command, the same for every such number; where it allows as many as there are words `env` in front
  -- of the rest, the recursion ends in its RecursionError.
  pub parse_reachable_command-total :
      (command : Text) (depth deeper : ℕ) (ts : List Text)
      → length (split_words lexing command (lexing.shlex_split command)) < depth
      → length (split_words lexing command (lexing.shlex_split command)) < deeper
      → (is_some (parse_reachable_command lexing depth command) ≡ true)
        × (parse_reachable_command lexing deeper command
            ≡ parse_reachable_command lexing depth command)
        × (parse_tokens lexing depth (env_chain depth ts) ≡ none)
  unfolding parse_reachable_command
  parse_reachable_command-total command depth deeper ts h k =
      let words = split_words lexing command (lexing.shlex_split command) in
      (
        parse_tokens-is_some depth words h,
        parse_tokens-fuel deeper depth words k h,
        parse_tokens-env_chain depth ts,
      )
