-- ===== src/Mcp.antt =====
-- codex_preflight_mcp: the confirmations of trust mutations and remote scans, and the audit log.
pub mod MutationConfirmation
pub mod Audit
pub mod RemoteConfirmation
pub mod Action
pub mod TrustMutation
