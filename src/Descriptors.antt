-- ===== src/Descriptors.antt =====
-- gates/_descriptors.py: a gate that only runs an outside tool, written as data.
pub mod Conflicts
pub mod Problem
pub mod Run
