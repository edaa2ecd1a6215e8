-- ===== src/Staticlint.antt =====
-- cmd/staticlint: the analyzer exitcheck, and the analyzers that main runs.
pub mod Exitcheck
pub mod Inspecting
pub mod Reports
