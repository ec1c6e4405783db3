-- ===== src/Runner.antt =====
-- src/application/intake.ts: `DecryptJobRunner` and `LeaseMonitor`.
pub mod Ports
pub mod Run
pub mod Steps
pub mod Order
pub mod Abandoned
pub mod Outcomes
pub mod Success
mod Tests
