-- ===== src/HeadState.antt =====
-- dashboard/head_state.py: the heads of the open pull requests, and which check readings may stay green.
pub mod Collect
pub mod Detail
pub mod Pull
pub mod Reading
pub mod Sample
pub mod Search
pub mod Unseen
