-- ===== src/Tests.antt =====
-- The tests, and the instances of the parameters that they run on.
pub mod Codec
pub mod Queue
pub mod Policy
pub mod Stores
pub mod Workers
pub mod Tools
pub mod Runs
pub mod Parse
pub mod Process
pub mod Reports
