-- ===== src/Reachability/Parser.antt =====
-- codex_preflight_core/reachability/command_parser.py: what a command line runs. Splitting by shlex
-- and str.split, the suffix of a path and str.isalnum are parameters; the display text, which nothing
-- reads, is left out.
pub mod Paths
pub mod Interpreters
pub mod Parsed
