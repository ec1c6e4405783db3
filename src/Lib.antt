-- ===== src/Lib.antt =====
-- EchoHoard is a self-hosted archive of chat backups and live messages. A worker decrypts snapshots
-- and imports them as jobs; a web delivery shows the archive to signed-in people and takes in signed
-- live events. This library models the parts of src/ that decide what may happen, and when.
--
-- The parts, and where they are modelled:
--   Base       shared tests, lists, texts, results and row orders.
--   Jobs       src/application/echohoard.ts (status types, transition tables) and
--              src/infrastructure/db/worker-persistence.ts (`PrismaDecryptJobStore`,
--              `PrismaImportJobLeases`): a table of rows; each statement is a function of the
--              table, as PostgreSQL runs it atomically. A history is a list of statements of any
--              workers at any times, in any interleaving.
--              Jobs.Writers adds the other writers to the table: the end of an import and the jobs of
--              live events in src/infrastructure/db/text-import.ts, and the exclusion in
--              src/infrastructure/db/import-exclusion.ts.
--   Runner     src/application/intake.ts: `DecryptJobRunner.run` with its try, catch and finally,
--              and `LeaseMonitor.run`. The ports answer from a world; the heartbeat may find the
--              lease lost before or after any operation settles. The result is a log of calls; what
--              an operation that lost the race still calls later is kept apart from it.
--   Live       src/application/live-event-intake.ts (`LiveEventIntakeService`, signature, timestamp,
--              metrics) in Live.Wire and Live.Intake, over the inbox of
--              src/infrastructure/db/prisma-persistence.ts (`PrismaLiveEventInboxPersistence`) in
--              Live.Inbox. The service calls `enqueue`; workers claim, complete and fail receipts.
--   Auth       src/application/auth.ts (`OidcAuth`) over src/infrastructure/auth/sessions.ts and
--              unlocks.ts: sessions, step-up challenges and grants as tables of one database.
--   Exclusion  src/application/import-exclusion.ts: requests, runs, and the preferred observation.
--   Snapshots  src/application/echohoard.ts: `StableBatchClaimer` and `ImmutableSnapshotCreator`, whose
--              ports answer from a world too.
--   Lifecycle  src/worker/lifecycle.ts: `WorkerLifecycle` and the signal handlers, as steps.
--   Health     src/domain/health.ts: `classifyHealth`.
--   Numbers    the numbers of JavaScript that checks on counts and limits need.
--   Reads      src/application/reads.ts: requests, `CursorCodec` and the operations of
--              `ArchiveReadService` over a port of rows, and in Reads.Keyset the statements of
--              src/infrastructure/db/prisma-persistence.ts that go on after a cursor. A reader who
--              follows the cursors is `read_all`.
--   Privacy    src/application/conversation-privacy.ts, the policies of
--              src/infrastructure/db/prisma-persistence.ts and src/infrastructure/db/ui-privacy.ts:
--              SQL conditions are tests on the rows of tables. The reads and the grouping use them.
--   Grouping   src/application/conversation-grouping.ts and
--              src/infrastructure/db/conversation-grouping.ts: merge and unmerge on the same tables.
--   Deletion   src/application/owner-deletion.ts and src/infrastructure/db/owner-deletion.ts.
--   Pairing    src/application/account-pairing.ts: `PairingSessionController`. Pairing.Segments has
--              the stretches of its handlers between their awaits, in any interleaving;
--              Pairing.Handlers has `status` as one poll. `AccountSettingsService` is in
--              Pairing.Settings.
--
-- How code and model correspond: functions have the source's names in snake_case. A record is an
-- interface or the columns of a table that the code reads and writes. Code that throws gives a
-- `Result` or an `Option`; a statement whose affected rows the code counts gives the new table
-- together with the outcome. Times are milliseconds on the natural numbers, the clock is an argument
-- of each operation, and so are random ids and tokens.
--
-- What is not under src/ is a parameter: SHA-256, HMAC, the identity provider, the directory of
-- principals, the validator of payloads, the order in which PostgreSQL compares ids, JSON and base64url
-- in the cursors, the digest of a read context, the parser of dates, the store behind the reads, and
-- the casts of texts to times and ids in the statements.
--
-- Fuel: `decimal` prints a number with twelve digits at most, which are all that a timestamp may
-- have. `read_all` follows cursors on fuel; one page more than there are rows is enough. Every other
-- loop runs over the structure of a list.
--
-- Not modelled: the adapters of the chat formats, the SQL of searching and statistics, the web and
-- tool deliveries, transcription, text import beyond its import jobs, configuration, and the wiring
-- of the processes.
pub mod Base
pub mod Jobs
pub mod Runner
pub mod Deletion
pub mod Exclusion
pub mod Auth
pub mod Live
pub mod Lifecycle
pub mod Grouping
pub mod Health
pub mod Snapshots
pub mod Numbers
pub mod Pairing
pub mod Privacy
pub mod Reads
