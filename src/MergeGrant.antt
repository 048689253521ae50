-- ===== src/MergeGrant.antt =====
-- gates/_merge_grant.py: may an agent merge a pull request without a human review?
pub mod Content
pub mod Lines
pub mod Policy
pub mod Decide
