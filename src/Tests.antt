-- ===== src/Tests.antt =====
-- The theorems at concrete inputs.
mod Plans
mod Texts
mod Crons
mod Runs
mod Applies
mod Reports
mod Excludes
