-- ===== src/Cache.antt =====
-- codex_preflight_core/cache: the store of user approvals.
pub mod ScanCache
pub mod TrustEntry
pub mod TrustCache
