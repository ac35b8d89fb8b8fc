-- ===== src/Mcp/MutationConfirmation.antt =====
-- codex_preflight_mcp/trust_mutation_confirmation.py: signed one-time challenges.
-- Clock readings are natural numbers, and a payload holds the timestamp that Python writes in hex.
pub mod Steps
pub mod Token
pub mod Signed
pub mod Once
pub mod Bounds
use codex_preflight.Base.{
  ℕ, ◌+◌, ◌-◌, ◌≡◌, String, Bool, true, false, ◌&&◌, ◌||◌, not, Option, none, some, List, [], ◌∷◌,
  ◌++◌, ◌==◌, nat_eq, string_eq, list_eq, Text, length, keep, all, contains, ltb, leb, dict_get,
  dict_set, if◌then◌else◌,
}

abbrev pub confirmation_expiry_seconds : ℕ
confirmation_expiry_seconds = 300

abbrev pub issue_window_seconds : ℕ
issue_window_seconds = 60

abbrev pub max_canonical_json_bytes : ℕ
max_canonical_json_bytes = 4096

abbrev pub max_issues_per_window : ℕ
max_issues_per_window = 32

abbrev pub max_live_challenges : ℕ
max_live_challenges = 128

abbrev pub max_token_bytes : ℕ
max_token_bytes = 1024

abbrev pub token_version : String
token_version = "trust-mutation-confirmation/v1"

-- the fields of a token, `_TOKEN_FIELDS`
pub record Payload : Type 0 where
  pub binding_digest : String
  pub challenge_id : String
  pub expires_at : ℕ
  pub issued_at : ℕ
  pub key_id : String
  pub nonce : String
  pub version : String

-- the codes of `TrustMutationConfirmationError`
pub data Code : Type 0 where
  invalid expired capacity rate_limited : Code

pub data Outcome {ℓ} (A : Type ℓ) : Type ℓ where
  ok : A → Outcome A
  err : Code → Outcome A

pub record ChallengeRecord : Type 0 where
  pub operation : Text
  pub issued_at : ℕ
  pub expires_at : ℕ
  pub binding_digest : String
  pub binding : Text
  pub display : Text
  pub proposed_entry_id : Text
  pub consumed : Bool

-- `TrustMutationChallenge`
pub record Challenge : Type 0 where
  pub challenge_id : String
  pub token : Text
  pub issued_at : ℕ
  pub expires_at : ℕ
  pub binding_digest : String
  pub display : Text
  pub proposed_entry_id : Text

-- `ConsumedMutationChallenge`
pub record ConsumedChallenge : Type 0 where
  pub challenge_id : String
  pub operation : Text
  pub issued_at : ℕ
  pub expires_at : ℕ
  pub binding_digest : String
  pub binding : Text
  pub display : Text
  pub proposed_entry_id : Text

-- the attributes that change
pub record Manager : Type 0 where
  pub issued_at : List ℕ
  pub records : List (String × ChallengeRecord)

-- What the module takes from Python's `hmac`, `hashlib`, `base64` and `json`, at the manager's
-- secret: the signature of an encoded payload, the encoding of a payload as JSON in base64 and its
-- reading (`none` where the text does not decode to a mapping with the seven fields), the digest,
-- the canonical JSON of a mapping, and the id of the key.
pub record Crypto : Type 1 where
  pub Mapping : Type 0
  pub signature : Text → Text
  pub encode : Payload → Text
  pub decode : Text → Option Payload
  pub digest : Text → String
  pub canonical : Mapping → Option Text
  pub key_id : String

abbrev pub dot : ℕ
dot = b'.'

-- `token.count(".")`
abbrev pub count_dots : Text → ℕ
count_dots [] = 0
count_dots (c ∷ s) = (if c == dot then 1 else 0) + count_dots s

-- `token.split(".", 1)`
abbrev pub before_dot : Text → Text
before_dot [] = []
before_dot (c ∷ s) = let rest = before_dot s in if c == dot then [] else c ∷ rest

abbrev pub after_dot : Text → Text
after_dot [] = []
after_dot (c ∷ s) = let rest = after_dot s in if c == dot then s else rest

-- The length in UTF-8.
abbrev pub utf8_length : Text → ℕ
utf8_length [] = 0
utf8_length (c ∷ s) =
    (if ltb c 0x80 then 1 else if ltb c 0x800 then 2 else if ltb c 0x10000 then 3 else 4)
    + utf8_length s

abbrev pub is_bounded : Text → ℕ → Bool
is_bounded s limit = not (s == []) && leb (utf8_length s) limit

-- `_prune_expired`
abbrev pub prune_expired : ℕ → Manager → Manager
prune_expired now m = record m { records = keep (λ e. ltb now e.1.expires_at) m.records }

-- `_prune_issue_window`: `issued_at > now - ISSUE_WINDOW_SECONDS`
abbrev pub prune_issue_window : ℕ → Manager → Manager
prune_issue_window now m = record m {
  issued_at = keep (λ t. ltb now (t + issue_window_seconds)) m.issued_at;
}

-- `invalidate_all`
unfoldable pub invalidate_all : Manager → Manager
invalidate_all m = record { issued_at = []; records = [] }

abbrev pub empty_manager : Manager
empty_manager = record { issued_at = []; records = [] }

-- `record.consumed = True` on the record of an id, whose key the dict holds once
abbrev pub mark_consumed :
    String → List (String × ChallengeRecord) → List (String × ChallengeRecord)
mark_consumed id [] = []
mark_consumed id ((j, r) ∷ d) =
    (j, if j == id then record r { consumed = true } else r) ∷ mark_consumed id d

module _ (crypto : Crypto) where
  open crypto use {Mapping, signature, encode, decode, digest, canonical, key_id}

  -- `_sign`
  unfoldable pub sign : Payload → Text
  sign payload = encode payload ++ (dot ∷ signature (encode payload))

  abbrev pub checked_payload : Option Payload → Option Payload
  checked_payload none = none
  checked_payload (some p) =
      if p.version == token_version
        && (not (p.nonce == "") && p.expires_at == p.issued_at + confirmation_expiry_seconds)
      then some p
      else none

  -- `_verify`; `none` is the invalid-token error
  unfoldable pub verify : Text → Option Payload
  verify token =
      if token == []
        || not (all (λ c. ltb c 0x80) token)
        || ltb max_token_bytes (utf8_length token)
        || not (count_dots token == 1)
      then none
      else if after_dot token == signature (before_dot token)
      then checked_payload (decode (before_dot token))
      else none

  -- `_canonical_mapping`
  abbrev pub bounded_canonical : Option Text → Option Text
  bounded_canonical none = none
  bounded_canonical (some s) = if leb (utf8_length s) max_canonical_json_bytes then some s else none

  unfoldable pub canonical_mapping : Mapping → Option Text
  canonical_mapping m = bounded_canonical (canonical m)

  abbrev pub new_payload : ℕ → String → String → String → Payload
  new_payload now id nonce binding_digest = record {
    binding_digest = binding_digest;
    challenge_id = id;
    expires_at = now + confirmation_expiry_seconds;
    issued_at = now;
    key_id = key_id;
    nonce = nonce;
    version = token_version;
  }

  abbrev pub new_record : ℕ → Text → Text → Text → Text → ChallengeRecord
  new_record now operation binding display proposed = record {
    operation = operation;
    issued_at = now;
    expires_at = now + confirmation_expiry_seconds;
    binding_digest = digest binding;
    binding = binding;
    display = display;
    proposed_entry_id = proposed;
    consumed = false;
  }

  abbrev pub new_challenge : ℕ → String → Text → Text → Text → Text → Challenge
  new_challenge now id token binding display proposed = record {
    challenge_id = id;
    token = token;
    issued_at = now;
    expires_at = now + confirmation_expiry_seconds;
    binding_digest = digest binding;
    display = display;
    proposed_entry_id = proposed;
  }

  -- The part of `issue` under the lock, after pruning; `id` and `nonce` are the random draws.
  unfoldable pub issue_pruned :
      ℕ → String → String → Text → Text → Text → Text → Manager → Outcome Challenge × Manager
  issue_pruned now id nonce operation binding display proposed m =
      let token = sign (new_payload now id nonce (digest binding)) in
      if leb max_live_challenges (length m.records)
      then (err capacity, m)
      else if leb max_issues_per_window (length m.issued_at)
      then (err rate_limited, m)
      else if ltb max_token_bytes (utf8_length token)
      then (err invalid, m)
      else (
        ok (new_challenge now id token binding display proposed),
        record m {
          records = dict_set id (new_record now operation binding display proposed) m.records;
          issued_at = m.issued_at ++ (now ∷ []);
        },
      )

  abbrev pub issue_canonical :
      ℕ
      → String
      → String
      → Text
      → Option Text
      → Option Text
      → Text
      → Manager
      → Outcome Challenge × Manager
  issue_canonical now id nonce operation (some binding) (some display) proposed m =
      issue_pruned now id nonce operation binding display proposed
        (prune_issue_window now (prune_expired now m))
  issue_canonical now id nonce operation _ _ proposed m = (err invalid, m)

  unfoldable pub issue :
      ℕ → String → String → Text → Mapping → Mapping → Text → Manager → Outcome Challenge × Manager
  unfolding issue_pruned canonical_mapping
  issue now id nonce operation binding display proposed m =
      if is_bounded operation 128 && is_bounded proposed 256
      then issue_canonical now id nonce operation (canonical_mapping binding)
          (canonical_mapping display) proposed m
      else (err invalid, m)

  abbrev pub to_consumed : String → ChallengeRecord → ConsumedChallenge
  to_consumed id r = record {
    challenge_id = id;
    operation = r.operation;
    issued_at = r.issued_at;
    expires_at = r.expires_at;
    binding_digest = r.binding_digest;
    binding = r.binding;
    display = r.display;
    proposed_entry_id = r.proposed_entry_id;
  }

  abbrev pub agrees : Payload → ChallengeRecord → Bool
  agrees p r =
      p.issued_at == r.issued_at
      && (p.expires_at == r.expires_at && p.binding_digest == r.binding_digest)

  -- The part of `authenticate_and_consume` behind the lookup of the record.
  unfoldable pub consume_record :
      ℕ → Payload → ChallengeRecord → Manager → Outcome ConsumedChallenge × Manager
  consume_record now p r m =
      if leb r.expires_at now
      then (err expired, prune_expired now m)
      else if r.consumed
      then (err invalid, prune_expired now m)
      else if agrees p r
      then (
        ok (to_consumed p.challenge_id r),
        record m { records = mark_consumed p.challenge_id (prune_expired now m).records },
      )
      else (err invalid, prune_expired now m)

  abbrev pub consume_found :
      ℕ → Payload → Option ChallengeRecord → Manager → Outcome ConsumedChallenge × Manager
  consume_found now p none m = (err invalid, m)
  consume_found now p (some r) m =
      if p.key_id == key_id then consume_record now p r m else (err invalid, m)

  abbrev pub consume_payload : ℕ → Option Payload → Manager → Outcome ConsumedChallenge × Manager
  consume_payload now none m = (err invalid, m)
  consume_payload now (some p) m = consume_found now p (dict_get p.challenge_id m.records) m

  unfoldable pub authenticate_and_consume : ℕ → Text → Manager → Outcome ConsumedChallenge × Manager
  unfolding consume_record
  authenticate_and_consume now token m = consume_payload now (verify token) m
