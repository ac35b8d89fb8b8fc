-- ===== src/Tests.antt =====
-- Runs of the program on concrete inputs.
mod Commands
mod Gates
mod Challenges
mod Approvals
mod Reports
mod Audit
mod Reached
mod Parsed
mod Remote
mod Service
