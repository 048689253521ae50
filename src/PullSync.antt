-- ===== src/PullSync.antt =====
-- actions/pull-sync/pull_sync.py: bring the open pull requests of a repository up to date with its
-- default branch, a few at a time.
pub mod Pull
pub mod Judge
pub mod Plan
pub mod Write
