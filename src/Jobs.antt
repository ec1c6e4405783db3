-- ===== src/Jobs.antt =====
-- The import queue: src/application/echohoard.ts, src/application/intake.ts and
-- src/infrastructure/db/worker-persistence.ts.
pub mod States
pub mod Failure
pub mod Table
pub mod Store
pub mod Leases
pub mod History
pub mod Writers
mod Tests
