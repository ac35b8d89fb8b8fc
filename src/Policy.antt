-- ===== src/Policy.antt =====
-- codex_preflight_core/policy: from findings to a decision.
pub mod Decision
pub mod Matrix
pub mod Engine
pub mod Explanation
