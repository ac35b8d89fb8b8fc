-- ===== src/Tests/Challenges.antt =====
-- The signed challenges of one manager, with a toy signature and encoding.
use codex_preflight.Base.{
  ◌≡◌, ◌≢◌, refl, arith, String, true, false, none, some, [], ◌∷◌, Text, codes, ◌==◌, list_eq,
  nat_eq, string_eq, if◌then◌else◌,
}
use codex_preflight.Mcp.MutationConfirmation.{
  Crypto, Payload, Manager, Challenge, ConsumedChallenge, issue, issue_pruned,
  authenticate_and_consume, consume_record, canonical_mapping, sign, verify, empty_manager,
  token_version, new_record, new_challenge, to_consumed,
}
use codex_preflight.Mcp.MutationConfirmation.Steps.{issuing, invalidating, run}
use codex_preflight.Mcp.MutationConfirmation.Once.{IsRefused, consume-once}
use codex_preflight.Mcp.MutationConfirmation.Bounds.{IsBounded, run-IsBounded}
use codex_preflight.Mcp.MutationConfirmation.Token.{answer, issue-consume}
use codex_preflight.Mcp.MutationConfirmation.Signed.{Signed, verify-Signed_iff}

abbrev pub sample : Payload
sample = record {
  binding_digest = "digest";
  challenge_id = "c1";
  expires_at = 310;
  issued_at = 10;
  key_id = "key";
  nonce = "n1";
  version = token_version;
}

-- One payload has a text; a mapping is its own canonical form.
abbrev pub toy : Crypto
toy = record {
  Mapping = Text;
  signature = λ s. codes "sig";
  encode = λ p. codes "payload";
  decode = λ s. if s == codes "payload" then some sample else none;
  digest = λ s. "digest";
  canonical = λ m. some m;
  key_id = "key";
}

abbrev pub binding : Text
binding = codes "{}"

abbrev pub issued_manager : Manager
issued_manager = record {
  issued_at = 10 ∷ [];
  records = ("c1", new_record toy 10 (codes "approve") binding binding (codes "e1")) ∷ [];
}

abbrev pub challenge : Challenge
challenge = new_challenge toy 10 "c1" (sign toy sample) binding binding (codes "e1")

distinct_strings : (a b : String) → (a == b) ≡ false → a ≢ b
distinct_strings a b h e = ground (arith, h, (string_eq.beq_iff a b).1 e)

sample-Signed : Signed toy (sign toy sample) sample
unfolding sign
sample-Signed = record {
  encoded = codes "payload";
  joined = refl;
  encoded_chars = refl;
  is_short = refl;
  is_read = refl;
  is_current = refl;
  has_nonce = distinct_strings "n1" "" refl;
  is_dated = refl;
}

verify-Signed_iff_example : verify toy (sign toy sample) ≡ some sample
verify-Signed_iff_example =
    (verify-Signed_iff toy (λ s. refl) (sign toy sample) sample).1 sample-Signed

issue-consume_example :
    (authenticate_and_consume toy 100 challenge.token issued_manager).0
    ≡ answer toy
        (λ s. refl)
        100
        "c1"
        (new_record toy 10 (codes "approve") binding binding (codes "e1"))
unfolding issue issue_pruned canonical_mapping sign
issue-consume_example =
    issue-consume toy (λ s. refl) 10 100 "c1" "n1" (codes "approve") binding binding binding binding
      (codes "e1") empty_manager issued_manager challenge (refl, refl)
      (distinct_strings "n1" "" refl) refl refl refl

-- The manager after the consumption at 100.
abbrev spent_manager : Manager
spent_manager = record {
  issued_at = 10 ∷ [];
  records =
      (
        "c1",
        record (new_record toy 10 (codes "approve") binding binding (codes "e1")) {
          consumed = true;
        },
      )
      ∷ [];
}

abbrev consumed_challenge : ConsumedChallenge
consumed_challenge =
    to_consumed toy "c1" (new_record toy 10 (codes "approve") binding binding (codes "e1"))

consume-once_example : IsRefused toy (
    authenticate_and_consume toy 120 (sign toy sample) (
      run toy
        (issuing 110 "c2" "n2" (codes "revoke") binding binding (codes "e2") ∷ [])
        spent_manager))
unfolding authenticate_and_consume verify sign consume_record
consume-once_example =
    consume-once toy 100 120 (sign toy sample) issued_manager spent_manager consumed_challenge
      (issuing 110 "c2" "n2" (codes "revoke") binding binding (codes "e2") ∷ []) refl
      (distinct_strings "c2" "c1" refl, tt)

run-IsBounded_example : IsBounded (
    run toy
      (issuing 10 "c1" "n1" (codes "approve") binding binding (codes "e1") ∷ invalidating ∷ [])
      empty_manager)
run-IsBounded_example =
    run-IsBounded toy
      (issuing 10 "c1" "n1" (codes "approve") binding binding (codes "e1") ∷ invalidating ∷ [])
      empty_manager (omega arith, omega arith)
