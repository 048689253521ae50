-- ===== src/SuiteScope.antt =====
-- actions/suite-scope/suite_scope.py: whether a pull request's diff can change what a slow suite
-- verifies.
pub mod InertList
pub mod Reads
pub mod Decide
pub mod Publish
