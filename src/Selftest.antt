-- ===== src/Selftest.antt =====
-- selftest.go, whose endpoint runs the module's own test cases.
pub mod Template
pub mod Render
pub mod Panics
pub mod Harness
pub mod Compare
pub mod Run
pub mod Tallies
pub mod Counts
pub mod RouteLookup
pub mod Endpoint
pub mod Frame
pub mod Preserved
