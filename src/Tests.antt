-- ===== src/Tests.antt =====
-- The theorems at concrete inputs, and runs of the definitions.
mod Contract
mod HeadState
mod MergeGrant
mod PullSync
mod SuiteScope
mod PinMerge
mod PinBump
mod Descriptors
mod FileSize
mod Ratchet
mod Runner
mod Schema
mod Shards
