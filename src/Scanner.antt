-- ===== src/Scanner.antt =====
-- codex_preflight_core/scanner: findings.
pub mod Finding
