-- ===== src/Reachability.antt =====
-- codex_preflight_core/reachability: what a command can reach in the repository.
pub mod Graph
pub mod Uncertainty
pub mod Files
pub mod Parser
