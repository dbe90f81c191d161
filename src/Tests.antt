-- ===== src/Tests.antt =====
-- Concrete runs: each theorem with hypotheses at an input where they hold.
pub mod Fixtures
pub mod Wire
pub mod Admission
pub mod Hosts
pub mod Lab
pub mod Hosting
pub mod Node
pub mod Tool
pub mod Bonding
