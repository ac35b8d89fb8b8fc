-- ===== src/Mcp/TrustMutation.antt =====
-- codex_preflight_mcp/trust_mutation.py: the service behind the tools trust_approve and trust_revoke,
-- which composes the one-time challenges, the audit log and the trust store.
pub mod Codes
pub mod Service
pub mod Request
pub mod Target
pub mod Bound
pub mod Confirm
pub mod Consume
pub mod Mutation
pub mod Approve
pub mod Revoke
pub mod Quiet
pub mod Unconfirmed
pub mod Consumed
pub mod Changed
pub mod Recorded
pub mod Approved
pub mod Authorized
pub mod Bindings
pub mod Revoked
pub mod AuthorizedRevoke
pub mod Kept
pub mod Spent
pub mod Calls
pub mod Issued
pub mod History
pub mod Uses
pub mod Origins
