-- ===== src/Mcp/TrustMutation/Calls.antt =====
-- codex_preflight_mcp/trust_mutation.py: the calls of one service, in the order in which they run.
use codex_preflight.Base.{◌≢◌, Option, none, String, Text, List, [], ◌∷◌}
use codex_preflight.Mcp.TrustMutation.Service.{
  Parts, Service, recover_startup, record_registration_state,
}
use codex_preflight.Mcp.TrustMutation.Request.{ArgumentReader, ApprovalArguments, RevokeArguments}
use codex_preflight.Mcp.TrustMutation.Confirm.{IssueDraws}
use codex_preflight.Mcp.TrustMutation.Consume.{ConfirmDraws}
use codex_preflight.Mcp.TrustMutation.Approve.{approve_call}
use codex_preflight.Mcp.TrustMutation.Revoke.{revoke_call}

module _ (parts : Parts) (reader : ArgumentReader) where
  -- A call with all that it draws and meets.
  pub data Call : Type 0 where
    approving : IssueDraws parts reader → ConfirmDraws → ApprovalArguments → Option Text → Call
    revoking : IssueDraws parts reader → ConfirmDraws → RevokeArguments → Option Text → Call
    registering : Text → Call
    recovering : Call

  abbrev pub call : Call → Service → Service
  call (approving i d a token) s = (approve_call parts reader i d a token s).1
  call (revoking i d a token) s = (revoke_call parts reader i d a token s).1
  call (registering id) s = (record_registration_state parts id s).1
  call recovering s = (recover_startup parts s).1

  abbrev pub serve : List Call → Service → Service
  serve [] s = s
  serve (c ∷ cs) s = serve cs (call c s)

  abbrev pub token_of : Call → Option Text
  token_of (approving i d a token) = token
  token_of (revoking i d a token) = token
  token_of _ = none

  -- The call does not draw the id for a challenge of its own.
  abbrev pub DrawsNot : String → Call → Type 0
  DrawsNot id (approving i d a token) = i.challenge_id ≢ id
  DrawsNot id (revoking i d a token) = i.challenge_id ≢ id
  DrawsNot id _ = Unit
