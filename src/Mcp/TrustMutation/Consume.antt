-- ===== src/Mcp/TrustMutation/Consume.antt =====
-- codex_preflight_mcp/trust_mutation.py: a call with a token, up to what its challenge was bound to, and
-- the records of what it fails by.
use codex_preflight.Base.{
  ℕ, Bool, ◌&&◌, Option, none, some, String, List, Text, codes, ◌==◌, nat_eq, list_eq,
  if◌then◌else◌,
}
use codex_preflight.Cache.TrustEntry.{TrustEntry}
use codex_preflight.Cache.TrustCache.{WriteOutcome}
use codex_preflight.Mcp.Action.{
  throw, Outcome, returned, thrown, pure, lift, fail_after, ◌>>=◌, ◌>>◌,
}
use codex_preflight.Mcp.MutationConfirmation.{ConsumedChallenge, Manager, authenticate_and_consume}
use codex_preflight.Mcp.MutationConfirmation as Confirmation
use codex_preflight.Mcp.TrustMutation.Codes.{
  ErrorCode, MutationError, plain, error_code, confirmation_invalid,
}
use codex_preflight.Mcp.TrustMutation.Service.{
  Parts, Binding, Service, Method, is_approve, audit_context, record_audit,
  record_validation_failure, record_terminal_failure,
}
use codex_preflight.Mcp.TrustMutation.Target.{Reading}

-- What a call with a token draws and meets: the clock of the challenges, the clock of the deadline, the
-- reading of the target and, for an approval, its reading under the lock of the store, the error of
-- that lock, the clock of the store, and the outcome of the write of a store.
pub record ConfirmDraws : Type 0 where
  pub now : ℕ
  pub monotonic : Option ℕ
  pub reading : Reading
  pub second_reading : Reading
  pub lock : Option ErrorCode
  pub store_now : ℕ
  pub write : List TrustEntry → WriteOutcome

-- What `_consume` gives.
pub record Confirmed : Type 0 where
  pub consumed : ConsumedChallenge
  pub binding : Binding

module _ (parts : Parts) where
  open parts use {crypto, library, canonical_challenge_id}

  abbrev pub consumed_by :
      Service
      → Confirmation.Outcome ConsumedChallenge × Manager
      → Outcome MutationError ConsumedChallenge × Service
  consumed_by s (Confirmation.ok c, m) = (returned c, record s { manager = m })
  consumed_by s (Confirmation.err e, m) =
      (thrown (plain confirmation_invalid), record s { manager = m })

  -- `authenticate_and_consume`, with its errors as that of the service
  unfoldable pub consume_challenge : ℕ → Text → Method ConsumedChallenge
  consume_challenge now token s =
      consumed_by s (authenticate_and_consume crypto now token s.manager)

  -- `_thaw(consumed.binding)`, `_bound_uuid` of the operation's id
  abbrev pub bound_operation : Option Binding → Outcome MutationError Binding
  bound_operation none = thrown (plain confirmation_invalid)
  bound_operation (some b) =
      if library.is_uuid4 b.operation_id then returned b else thrown (plain confirmation_invalid)

  abbrev pub tool_name : Text → Text
  tool_name operation = if is_approve operation then codes "trust_approve" else codes "trust_revoke"

  abbrev pub is_for : Text → ConsumedChallenge → Binding → Bool
  is_for operation c b =
      c.operation == operation && b.operation == operation && b.tool == tool_name c.operation

  abbrev pub require_operation : Text → ConsumedChallenge → Binding → Method Confirmed
  require_operation operation c b =
      if is_for operation c b
      then pure (record { consumed = c; binding = b })
      else fail_after
          (record_terminal_failure parts (is_approve c.operation) b.operation_id
            confirmation_invalid b.target (some c.proposed_entry_id)
            (some (canonical_challenge_id c.challenge_id)))
          (plain confirmation_invalid)

  -- The part of `_consume` behind the token.
  abbrev pub consume_bound : Text → ConsumedChallenge → Method Confirmed
  consume_bound operation c = lift (bound_operation (parts.read_binding c.binding)) >>= λ b.
      (record_audit parts "challenge_consumed" (
          audit_context parts (is_approve c.operation) b.operation_id b.target
            (some c.proposed_entry_id) (some (canonical_challenge_id c.challenge_id)) "consumed"
            none)
        >> require_operation operation c b)

  -- `_consume`
  unfoldable pub consume : ℕ → Text → Text → Method Confirmed
  consume now operation token = consume_challenge now token >>= consume_bound operation

  -- `_consume` on an argument that may be MISSING, which is no text and no token
  abbrev pub consume_given : ℕ → Text → Option Text → Method Confirmed
  consume_given now operation none = throw (plain confirmation_invalid)
  consume_given now operation (some token) = consume now operation token

  -- `_record_validation_failure` of a call that has consumed its challenge
  abbrev pub refuse : Bool → Confirmed → MutationError → Method String
  refuse approving c e =
      record_validation_failure parts approving c.binding.operation_id (error_code e)
        c.binding.target (some c.consumed.proposed_entry_id)
        (some (canonical_challenge_id c.consumed.challenge_id))

  -- `_record_terminal_failure` of a call that has consumed its challenge
  abbrev pub terminal : Bool → Confirmed → ErrorCode → Method String
  terminal approving c code =
      record_terminal_failure parts approving c.binding.operation_id code c.binding.target
        (some c.consumed.proposed_entry_id) (some (canonical_challenge_id c.consumed.challenge_id))
