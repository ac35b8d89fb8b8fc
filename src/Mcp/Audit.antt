-- ===== src/Mcp/Audit.antt =====
-- codex_preflight_mcp/trust_mutation_audit.py: the log of trust mutations.
pub mod Record
pub mod Segments
pub mod Chain
pub mod Protocol
