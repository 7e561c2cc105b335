-- ===== src/Lib.antt =====
-- Posta, a link shortener with honest click analytics. A redirect service answers each click and
-- puts a capture event on a queue; a worker takes the events off the queue, gathers them into
-- batches, writes each batch to object storage and then to the database; a command-line tool
-- replays the stored batches into the database.
--
-- The parts, and the files that model them:
--
--   Contracts/Capture          packages/contracts/src/capture.ts: the event that all parts exchange.
--   Contracts/Domain           packages/contracts/src/domain.ts: makeUrlBuilders.
--   Contracts/Reserved         packages/contracts/src/reserved.ts: reserved handles and paths.
--   Contracts/Slugs            packages/contracts/src/links.ts: isValidSlug.
--   Contracts/Redaction        packages/contracts/src/redact.ts: redactForbiddenKeys.
--   Core/Enrichment            packages/core/src/enrichment: parseUserAgent, destHost,
--                              resolveSourcePlatform, isInApp, enrich.
--   Core/EventLog/Keys         packages/core/src/r2/keys.ts: eventBatchKey, eventPrefixes.
--   Core/EventLog/Ndjson       packages/core/src/r2/ndjson.ts: serializeBatch, streamEventLog and
--                              what they call; Core/EventLog/Json is JSON.stringify.
--   Core/Migrations            packages/core/src/db/sql-migrate.ts: runSqlMigrations,
--                              downSqlMigration, runInTransaction.
--   Core/MigrateDown           packages/core/src/db/migrate-down.ts: migrateDown.
--   Core/Tenants               packages/core/src/db/tenant.ts: forTenant, resolveTenantByHandle,
--                              resolveLinkBySlug.
--   Batch/Accumulator          apps/worker/src/batch/accumulator.ts: class BatchAccumulator, as a
--                              record of its private fields and one step per call, timer callback
--                              and answer of a flush. Add, triggerFlush, runFlush, startBatch and
--                              flushNow keep their names.
--   Batch/SplitRetry           apps/worker/src/batch/split-retry.ts: retryWithSplit, attemptBatch,
--                              validateOptions, sendPoisonEventsToDlq.
--   Batch/R2Retry              apps/worker/src/batch/r2-retry.ts: classifyR2Error, retryR2Put,
--                              putR2BatchWithRetry.
--   Batch/ClassifyError        apps/worker/src/batch/classify-flush-error.ts: extractSqlState and
--                              classifyFlushError.
--   Batch/Rows                 apps/worker/src/batch/flush.ts: toNewEventRow.
--   Batch/Flush                apps/worker/src/batch/flush.ts: createFlushBatch, with
--                              resolveDestinationsByLinkIds (packages/core/src/db/tenant.ts) and
--                              insertEventsBatch (packages/core/src/db/events.ts).
--   Consumer/Events            apps/worker/src/consumer/events.consumer.ts: process, onFailed,
--                              routeToDlq and safeLog of class EventsConsumer, with toDlqIssues
--                              of dlq.service.ts.
--   Consumer/DeadLetters       apps/worker/src/consumer/dlq.service.ts: send and
--                              cleanAgedEntriesThrottled of class DlqService.
--   Consumer/Shutdown          apps/worker/src/consumer/shutdown.ts: class ShutdownService.
--   Replay/Driver              apps/worker/src/cli/replay-driver.ts: replayEventLog.
--   Replay/Arguments           apps/worker/src/cli/replay.ts: parseReplayArgs.
--   Replay/Command             apps/worker/src/cli/replay.ts: runReplayCli.
--   Replay/Main                apps/worker/src/cli/replay.ts: main.
--   Replay/Reconciliation,     apps/worker/src/cli/replay-report.ts: buildReplayReport and its lines;
--   Replay/Report              replayWithReport, with insertEventsBatchWithCounts
--                              (packages/core/src/db/events.ts).
--   Redirect/Handler           apps/api/src/redirect/middleware.ts: createRedirectMiddleware and
--                              handleLinkTarget, with createLogEnqueueFailure of enqueue.ts.
--   Redirect/Host              apps/api/src/redirect/host.ts: makeRequestTargetParser.
--   Redirect/Capture           apps/api/src/redirect/capture.ts: readSignals, readClientIp,
--                              computeVisitorHash, buildCapturePayload.
--   Redirect/Location          apps/api/src/redirect/redirect-response.ts: the Location header.
--   Redirect/Links             apps/api/src/redirect/resolve-link.ts: resolveLink and its cache.
--   Redirect/Tenants           apps/api/src/redirect/resolve-tenant.ts: resolveTenant and its memo.
--   Redirect/Enqueue           apps/api/src/redirect/enqueue.ts: the bound on calls of the queue.
--   Redirect/Escape            apps/api/src/redirect/escape-html.ts: escapeHtml.
--   Shared                     What these files share: tests and list functions on the native
--                              numbers, the values that JavaScript throws, and asynchronous code.
--
-- Asynchronous code is state passing over an abstract world `W`, which its collaborators (the
-- database, object storage, timers, loggers) act on: `Act W A` is `W → Outcome A × W`, `await` is
-- the bind, and an outcome returns a value or throws one. Every collaborator is a parameter and may
-- do anything to the world; a theorem says in its hypotheses what it asks of one. Code that the
-- event loop interleaves (the accumulator) is a list of steps in any order.
--
-- The recursion of attemptBatch runs on fuel, the length of the batch: a batch of n + 1 events is
-- halved into parts of at most n. Running out of fuel is an outcome of its own, `stuck`, and a
-- theorem shows that it does not occur. The fuel of the drain at shutdown is the number of rounds
-- that its timer leaves it. Chains of causes of a thrown error are finite; the program's
-- own walk stops after five. Counters and clocks are natural numbers without an upper bound, as the
-- code never comes near 2 ^ 53. Log calls keep the values that they carry, not their wording.
-- A text is a sequence of Unicode characters; the destination of a redirect, which can hold half a
-- surrogate pair, is a list of code points from its check on. Of the letters outside ASCII, only
-- the one whose lower case is in ASCII (U+212A) is put in lower case.
--
-- Not modelled: the web application, the database schema, the queue library,
-- the S3 and Redis clients, the HTTP server and the NestJS wiring.
pub mod Shared
pub mod Contracts
pub mod Core
pub mod Batch
pub mod Consumer
pub mod Replay
pub mod Redirect
