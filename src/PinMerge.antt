-- ===== src/PinMerge.antt =====
-- gates/_pin_merge.py: what `apply-down --auto --act --merge` does with the open pin bumps.
pub mod Pin
pub mod Changes
pub mod Checks
pub mod Merge
