-- ===== src/Live.antt =====
-- Live events from the moment they arrive: src/application/live-event-intake.ts and the inbox of
-- src/infrastructure/db/prisma-persistence.ts.
pub mod Inbox
pub mod Wire
pub mod Intake
pub mod Receipts
mod Tests
