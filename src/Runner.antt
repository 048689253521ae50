-- ===== src/Runner.antt =====
-- bin/cli/runner.py: the manifest that a run judges, and the run of its gates.
pub mod Manifest
pub mod Run
