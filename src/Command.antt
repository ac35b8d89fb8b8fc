-- ===== src/Command.antt =====
-- codex_preflight_core/command: what kind of command is planned.
pub mod Scope
pub mod Words
pub mod Segments
pub mod Java
pub mod Classifier
