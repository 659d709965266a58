-- ===== src/Tests.antt =====
-- Runs of the model over a small concrete library, and the theorems at concrete inputs.
pub mod Sample
pub mod Worlds
pub mod Values
pub mod Lives
pub mod Schedules
pub mod Idling
pub mod Sharing
mod Witnesses
