-- ===== src/Testing.antt =====
-- src/testing: what the tests judge histories by.
pub mod LinearizabilityChecker
