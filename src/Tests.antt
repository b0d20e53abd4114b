-- ===== src/Tests.antt =====
-- Concrete inputs, and the theorems at them.
pub mod World
mod Runs
mod Parts
mod Admission
mod Monitors
mod Lives
mod Templates
