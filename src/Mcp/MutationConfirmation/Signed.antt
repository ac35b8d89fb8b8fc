-- ===== src/Mcp/MutationConfirmation/Signed.antt =====
-- codex_preflight_mcp/trust_mutation_confirmation.py: the tokens that `_verify` accepts.
use codex_preflight.Base.{
  ◌+◌, ◌≡◌, ◌≢◌, ◌↔◌, inl, inr, refl, sym, ap, ◌∙◌, true, Option, some, none, [], ◌∷◌, ◌++◌, arith,
  Text, ◌==◌, nat_eq, string_eq, list_eq, list_eqb_iff, all, Bool-cases, ltb, leb, eqb_refl,
}
use codex_preflight.Mcp.MutationConfirmation.{
  Crypto, Payload, verify, dot, count_dots, before_dot, after_dot, utf8_length, max_token_bytes,
  token_version, checked_payload, confirmation_expiry_seconds,
}
use codex_preflight.Mcp.MutationConfirmation.Token.{
  is_token_char, count_dots-append, count_dots-token_chars, before_dot-append, after_dot-append,
  is_ascii-append, append-nonempty,
}

before_dot-token_chars :
    (s : Text) → all (λ c. ltb c 0x80) s ≡ true → all is_token_char (before_dot s) ≡ true
before_dot-token_chars [] h = refl
before_dot-token_chars (c ∷ s) h = ground (arith, h, before_dot-token_chars s)

before_dot-after_dot :
    (s : Text) → (count_dots s == 1) ≡ true → s ≡ before_dot s ++ (dot ∷ after_dot s)
before_dot-after_dot [] h = absurd (ground (arith, h))
before_dot-after_dot (c ∷ s) h = elim (Bool-cases (c == dot)) [
  | inl e ↦ rw (e, (nat_eq.beq_iff c dot).0 e) refl
  | inr e ↦ rw (e) (ap (λ (t : Text). c ∷ t) (before_dot-after_dot s (ground (arith, h, e))))
]

module _ (crypto : Crypto) where
  open crypto use {signature, decode}

  -- A token of a payload, described apart from the code: an encoded part and its signature joined by
  -- a dot, within 1024 bytes, whose encoded part is read as the payload; the payload is of this
  -- version, has a nonce and expires 300 seconds after its issue.
  pub record Signed (token : Text) (p : Payload) : Type 0 where
    pub encoded : Text
    pub joined : token ≡ encoded ++ (dot ∷ signature encoded)
    pub encoded_chars : all is_token_char encoded ≡ true
    pub is_short : leb (utf8_length token) max_token_bytes ≡ true
    pub is_read : decode encoded ≡ some p
    pub is_current : p.version ≡ token_version
    pub has_nonce : p.nonce ≢ ""
    pub is_dated : p.expires_at ≡ p.issued_at + confirmation_expiry_seconds

  checked_payload-some :
      (o : Option Payload) (p : Payload)
      → checked_payload crypto o ≡ some p
      → (o ≡ some p)
        × (p.version ≡ token_version)
        × (p.nonce ≢ "")
        × (p.expires_at ≡ p.issued_at + confirmation_expiry_seconds)
  checked_payload-some none p h = absurd (ground (arith, h))
  checked_payload-some (some q) p h =
      let version = string_eq.beq_iff q.version token_version in
      let nonce = string_eq.beq_iff q.nonce "" in
      (ground (arith, h), ground (arith, h, version), ground (arith, h, nonce), ground (arith, h))

  checked_payload-Signed :
      (p : Payload) {token : Text} → Signed token p → checked_payload crypto (some p) ≡ some p
  checked_payload-Signed p s = ground (
    arith,
    s.is_current,
    s.has_nonce,
    s.is_dated,
    string_eq.beq_iff p.version token_version,
    string_eq.beq_iff p.nonce "",
  )

  verify-parts :
      (token : Text) (p : Payload)
      → verify crypto token ≡ some p
      → (all (λ c. ltb c 0x80) token ≡ true)
        × (leb (utf8_length token) max_token_bytes ≡ true)
        × ((count_dots token == 1) ≡ true)
        × ((after_dot token == signature (before_dot token)) ≡ true)
        × (checked_payload crypto (decode (before_dot token)) ≡ some p)
  unfolding verify
  verify-parts token p h = (
    ground (arith, h),
    ground (arith, h),
    ground (arith, h),
    ground (arith, h),
    ground (arith, h),
  )

  verify-Signed : (token : Text) (p : Payload) → verify crypto token ≡ some p → Signed token p
  verify-Signed token p h =
      let parts = verify-parts token p h in
      let checked = checked_payload-some (decode (before_dot token)) p (parts.4) in
      let same = (list_eqb_iff (after_dot token) (signature (before_dot token))).0 (parts.3) in
      record {
        encoded = before_dot token;
        joined =
            before_dot-after_dot token (parts.2)
            ∙ ap (λ (t : Text). before_dot token ++ (dot ∷ t)) same;
        encoded_chars = before_dot-token_chars token (parts.0);
        is_short = parts.1;
        is_read = checked.0;
        is_current = checked.1;
        has_nonce = checked.2;
        is_dated = checked.3;
      }

  module _ (signature_chars : (s : Text) → all is_token_char (signature s) ≡ true) where
    Signed-verify : (token : Text) (p : Payload) → Signed token p → verify crypto token ≡ some p
    unfolding verify
    Signed-verify token p s =
        let e = s.encoded in
        let t = signature e in
        let short : leb (utf8_length (e ++ (dot ∷ t))) max_token_bytes ≡ true =
          ap (λ (l : Text). leb (utf8_length l) max_token_bytes) (sym s.joined) ∙ s.is_short in
        rw
          (
            s.joined,
            append-nonempty e t,
            is_ascii-append e t s.encoded_chars (signature_chars e),
            count_dots-append e (dot ∷ t),
            before_dot-append e t s.encoded_chars,
            after_dot-append e t s.encoded_chars,
            count_dots-token_chars e s.encoded_chars,
            count_dots-token_chars t (signature_chars e),
            eqb_refl t,
            s.is_read,
          )
          (ground (arith, short, checked_payload-Signed p s))

    -- A token is accepted, and read as a payload, exactly when it is signed: it is an encoded part and
    -- the signature of that part joined by a dot, within 1024 bytes, the part is ASCII without the dot
    -- and is decoded to the payload, and the payload is of this version, has a nonce and expires 300
    -- seconds after its issue. A signature is ASCII without the dot; nothing is asked of the encoding.
    pub verify-Signed_iff :
        (token : Text) (p : Payload) → (verify crypto token ≡ some p) ↔ Signed token p
    verify-Signed_iff token p = (verify-Signed token p, Signed-verify token p)
