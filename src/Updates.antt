-- ===== src/Updates.antt =====
-- The version updater, scripts/update-apps: the decisions of versions.ts and the run of
-- update-apps.ts around them.
pub mod Number
pub mod Compare
pub mod Order
pub mod Pick
pub mod Template
pub mod ImageRef
pub mod Decide
pub mod Pins
pub mod Run
mod Tests
mod Examples
