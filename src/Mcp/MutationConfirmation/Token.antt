-- ===== src/Mcp/MutationConfirmation/Token.antt =====
-- codex_preflight_mcp/trust_mutation_confirmation.py: the token that an issued challenge carries.
use codex_preflight.Base.{
  ℕ, ◌+◌, ◌≡◌, ◌≢◌, inl, inr, refl, String, Bool, true, false, Option, some, [], ◌∷◌, ◌++◌, arith,
  Text, ◌&&◌, ◌==◌, nat_eq, string_eq, list_eq, all, dict_get, dict_set, dict_get-dict_set,
  Bool-cases, if◌then◌else◌, ltb, leb, not, eqb_refl,
}
use codex_preflight.Mcp.MutationConfirmation.{
  Crypto, Manager, ChallengeRecord, Outcome, ok, err, Payload, expired, Challenge,
  ConsumedChallenge, issue, issue_pruned, issue_canonical, canonical_mapping,
  authenticate_and_consume, consume_record, prune_expired, prune_issue_window, is_bounded, verify,
  sign, new_record, new_payload, to_consumed, dot, count_dots, before_dot, after_dot, utf8_length,
  max_token_bytes, token_version, checked_payload, confirmation_expiry_seconds,
}

-- The characters of a part of a token: ASCII without the dot.
abbrev pub is_token_char : ℕ → Bool
is_token_char c = ltb c 0x80 && not (c == dot)

pub count_dots-append : (s t : Text) → count_dots (s ++ t) ≡ count_dots s + count_dots t
count_dots-append [] t = omega arith
count_dots-append (c ∷ s) t = omega (arith, count_dots-append s t)

pub count_dots-token_chars : (s : Text) → all is_token_char s ≡ true → count_dots s ≡ 0
count_dots-token_chars [] h = refl
count_dots-token_chars (c ∷ s) h = ground (arith, h, count_dots-token_chars s)

pub before_dot-append : (s t : Text) → all is_token_char s ≡ true → before_dot (s ++ (dot ∷ t)) ≡ s
before_dot-append [] t h = refl
before_dot-append (c ∷ s) t h = ground (arith, h, before_dot-append s t)

pub after_dot-append : (s t : Text) → all is_token_char s ≡ true → after_dot (s ++ (dot ∷ t)) ≡ t
after_dot-append [] t h = refl
after_dot-append (c ∷ s) t h = ground (arith, h, after_dot-append s t)

pub is_ascii-append :
    (s t : Text)
    → all is_token_char s ≡ true
    → all is_token_char t ≡ true
    → all (λ c. ltb c 0x80) (s ++ (dot ∷ t)) ≡ true
is_ascii-append [] [] h k = refl
is_ascii-append [] (c ∷ t) h k = ground (arith, k, is_ascii-append [] t h)
is_ascii-append (c ∷ s) t h k = ground (arith, h, is_ascii-append s t)

pub append-nonempty : (s t : Text) → ((s ++ (dot ∷ t)) == []) ≡ false
append-nonempty [] t = refl
append-nonempty (c ∷ s) t = refl

module _ (crypto : Crypto)
    (signature_chars : (s : Text) → all is_token_char (crypto.signature s) ≡ true) where
  open crypto use {Mapping, key_id, digest, encode, signature, decode}

  -- What the encoding, JSON in base64, does on a payload: its characters are ASCII without the dot,
  -- and decoding reads the payload back.
  abbrev pub IsReadBack : Payload → Type 0
  IsReadBack p = (all is_token_char (encode p) ≡ true) × (decode (encode p) ≡ some p)

  verify_parts :
      (p : Payload)
      → IsReadBack p
      → leb (utf8_length (sign crypto p)) max_token_bytes ≡ true
      → verify crypto (sign crypto p) ≡ checked_payload crypto (some p)
  unfolding sign verify
  verify_parts p b h =
      let s = encode p in
      let t = signature s in
      rw
        (
          append-nonempty s t,
          is_ascii-append s t b.0 (signature_chars s),
          count_dots-append s (dot ∷ t),
          before_dot-append s t b.0,
          after_dot-append s t b.0,
          count_dots-token_chars s b.0,
          count_dots-token_chars t (signature_chars s),
          eqb_refl t,
          b.1,
        )
        (ground (arith, h))

  verify-sign :
      (p : Payload)
      → IsReadBack p
      → p.version ≡ token_version
      → p.nonce ≢ ""
      → p.expires_at ≡ p.issued_at + confirmation_expiry_seconds
      → leb (utf8_length (sign crypto p)) max_token_bytes ≡ true
      → verify crypto (sign crypto p) ≡ some p
  verify-sign p b v n x h = rw (verify_parts p b h) (
      ground
        (arith, v, n, x, string_eq.beq_iff p.version token_version, string_eq.beq_iff p.nonce ""))

  new_payload-verify :
      (now : ℕ) (id nonce binding_digest : String)
      → IsReadBack (new_payload crypto now id nonce binding_digest)
      → nonce ≢ ""
      → leb
          (utf8_length (sign crypto (new_payload crypto now id nonce binding_digest)))
          max_token_bytes
        ≡ true
      → verify crypto (sign crypto (new_payload crypto now id nonce binding_digest))
        ≡ some (new_payload crypto now id nonce binding_digest)
  new_payload-verify now id nonce binding_digest rb n h =
      verify-sign (new_payload crypto now id nonce binding_digest) rb refl n refl h

  -- What the manager answers to the token of a record that it holds unconsumed.
  abbrev pub answer : ℕ → String → ChallengeRecord → Outcome ConsumedChallenge
  answer later id r = if ltb later r.expires_at then ok (to_consumed crypto id r) else err expired

  consume_record-new :
      (now later : ℕ) (id nonce : String) (operation binding display proposed : Text) (m : Manager)
      → (consume_record crypto later
          (new_payload crypto now id nonce (digest binding))
          (new_record crypto now operation binding display proposed)
          m).0
        ≡ answer later id (new_record crypto now operation binding display proposed)
  unfolding consume_record
  consume_record-new now later id nonce operation binding display proposed m =
      ground (arith, string_eq.beq_iff (digest binding) (digest binding))

  consume-verified :
      (later : ℕ) (token : Text) (p : Payload) (r : ChallengeRecord) (m : Manager)
      → verify crypto token ≡ some p
      → dict_get p.challenge_id m.records ≡ some r
      → p.key_id ≡ key_id
      → authenticate_and_consume crypto later token m ≡ consume_record crypto later p r m
  unfolding authenticate_and_consume
  consume-verified later token p r m v g k = rw (v, g, (string_eq.beq_iff p.key_id key_id).1 k) refl

  issue_pruned-issued :
      (now : ℕ) (id nonce : String) (operation binding display proposed : Text) (m after : Manager)
      (c : Challenge)
      → issue_pruned crypto now id nonce operation binding display proposed m ≡ (ok c, after)
      → (c.token ≡ sign crypto (new_payload crypto now id nonce (digest binding)))
        × (leb
              (utf8_length (sign crypto (new_payload crypto now id nonce (digest binding))))
              max_token_bytes
            ≡ true)
        × (after.records
            ≡ dict_set id (new_record crypto now operation binding display proposed) m.records)
  unfolding issue_pruned
  issue_pruned-issued now id nonce operation binding display proposed m after c e =
      (ground (arith, e), ground (arith, e), ground (arith, e))

  issue_pruned-consume :
      (now later : ℕ) (id nonce : String) (operation binding display proposed : Text)
      (m after : Manager) (c : Challenge)
      → IsReadBack (new_payload crypto now id nonce (digest binding))
      → nonce ≢ ""
      → issue_pruned crypto now id nonce operation binding display proposed m ≡ (ok c, after)
      → (authenticate_and_consume crypto later c.token after).0
        ≡ answer later id (new_record crypto now operation binding display proposed)
  issue_pruned-consume now later id nonce operation binding display proposed m after c rb n e =
      let issued =
        issue_pruned-issued now id nonce operation binding display proposed m after c e in
      let p = new_payload crypto now id nonce (digest binding) in
      let r = new_record crypto now operation binding display proposed in
      rw
        (
          issued.0,
          consume-verified later (sign crypto p) p r after
              (new_payload-verify now id nonce (digest binding) rb n issued.1)
              (rw (issued.2) (dict_get-dict_set id r m.records)) refl,
        )
        (consume_record-new now later id nonce operation binding display proposed after)

  issue_canonical-consume :
      (now later : ℕ) (id nonce : String) (operation : Text) (binding display : Option Text)
      (b d : Text) (proposed : Text) (m after : Manager) (c : Challenge)
      → IsReadBack (new_payload crypto now id nonce (digest b))
      → nonce ≢ ""
      → binding ≡ some b
      → display ≡ some d
      → issue_canonical crypto now id nonce operation binding display proposed m ≡ (ok c, after)
      → (authenticate_and_consume crypto later c.token after).0
        ≡ answer later id (new_record crypto now operation b d proposed)
  issue_canonical-consume now later id nonce operation binding display b d proposed m after c rb n
        hb hd e =
      issue_pruned-consume now later id nonce operation b d proposed
        (prune_issue_window now (prune_expired now m)) after c rb n (ground (arith, e, hb, hd))

  -- A challenge that was issued for a binding and a display, with a nonce that is not empty, is
  -- consumed by its token from the manager that the call left: before its expiry the answer is the
  -- issued record under the drawn id, from the expiry on it is the expiry error. Of the encodings,
  -- which are parameters, it asks that the payload is read back and that a signature is ASCII
  -- without the dot.
  pub issue-consume :
      (now later : ℕ) (id nonce : String) (operation : Text) (binding display : Mapping)
      (b d : Text) (proposed : Text) (m after : Manager) (c : Challenge)
      → IsReadBack (new_payload crypto now id nonce (digest b))
      → nonce ≢ ""
      → canonical_mapping crypto binding ≡ some b
      → canonical_mapping crypto display ≡ some d
      → issue crypto now id nonce operation binding display proposed m ≡ (ok c, after)
      → (authenticate_and_consume crypto later c.token after).0
        ≡ answer later id (new_record crypto now operation b d proposed)
  unfolding issue
  issue-consume now later id nonce operation binding display b d proposed m after c rb n hb hd e =
      elim (Bool-cases (is_bounded operation 128 && is_bounded proposed 256)) [
        | inl k ↦
            issue_canonical-consume now later id nonce operation (canonical_mapping crypto binding)
              (canonical_mapping crypto display) b d proposed m after c rb n hb hd
              (ground (arith, e, k))
        | inr k ↦ ground (arith, e, k)
      ]
