-- ===== src/Contract.antt =====
-- gates/_contract.py, the contract that every gate shares: findings, their report and the exit
-- code, the escaping of workflow commands, globs, and what is read from git.
pub mod Escape
pub mod Report
pub mod Glob
pub mod History
