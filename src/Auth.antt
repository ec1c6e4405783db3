-- ===== src/Auth.antt =====
-- Sign-in and step-up unlocking: src/application/auth.ts, src/infrastructure/auth/sessions.ts and
-- src/infrastructure/auth/unlocks.ts.
pub mod Database
pub mod Sessions
pub mod Unlocks
pub mod Grants
pub mod Service
pub mod StepUp
pub mod Challenges
pub mod Relock
pub mod Scope
pub mod Soundness
mod Tests
