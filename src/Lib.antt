-- ===== src/Lib.antt =====
-- The backend of Regent: what its core logic does, modelled and proved.
--
-- Regent fetches the email of its users, has AI engines categorize, summarize and answer it, and keeps
-- calendars and tasks; tenants pay by plans. One process serves the HTTP API and runs, for each user,
-- a bundle of services under a supervisor. An email that arrives is enqueued for its user; the cron
-- jobs of a bundle enqueue what was left over; workers take jobs from the queue by plan priority and
-- run the pipeline on each, which records its progress in a status row. The API is guarded by rate
-- limiters, a login lockout and the billing gates, which read the plan that Stripe's webhooks write.
--
-- What each file models:
--   Plan.antt: the plan names (internal/billing/config.go).
--   Orchestrator/Supervisor.antt: runWithSupervisor, its backoff and dead-lettering
--     (internal/orchestrator/supervisor.go, boot.go). A run of a service is an input: what it returns,
--     how long it ran, the random factor of the jitter.
--   Orchestrator/Registry.antt: the bundles of ServiceRegistry and their goroutines
--     (internal/orchestrator/registry.go), as a step relation.
--   Orchestrator/Cron.antt: CronScheduler, its tickers, the recovery of missed jobs and the rows of
--     cron_jobs (internal/orchestrator/cron.go), over jobs that are a parameter; Orchestrator/Cron/Jobs
--     is the job types and their intervals.
--   Ai/Queue.antt: Enqueue, Dequeue and EnqueueEmail (internal/ai/queue/queue.go, enqueue.go) over the
--     Redis commands that they send, which Ai/Queue/Commands.antt states as an interface with the
--     commands' documented laws. Which command fails is an input.
--   Ai/Pipeline.antt: Process and updateStatus (internal/ai/queue/pipeline.go) over the engines as an
--     interface; Ai/Pipeline/Skip.antt is shouldSkipDraft, Ai/Pipeline/Recovery.antt is who runs an
--     email again (internal/ai/recovery.go, reprocess.go, the query in internal/orchestrator/cron.go).
--   Ai/Workers.antt: WorkerPool (internal/ai/queue/worker.go) as a step relation over that queue.
--   Ai/Router.antt: ModelRouter (internal/ai/router.go, models.go).
--   Ai/PlanConfig.antt: GetPlanConfig (internal/ai/plan_config.go).
--   Middleware/AuthWindow.antt: AuthRateLimiter (internal/middleware/auth_ratelimit.go).
--   Middleware/TokenBucket.antt: the limiter of all requests (internal/middleware/ratelimit.go).
--   Auth/Lockout.antt: LockoutService (internal/auth/lockout.go), its SQL as functions on a row.
--   Billing/Features.antt: features and plan order (internal/billing/features.go, config.go).
--   Billing/Limits.antt: CheckUsageLimit, CheckDailyTokenLimit (internal/billing/limits.go).
--   Billing/Gates.antt: RequireFeature, RequireAccounts, RequireTokens (internal/billing/gates.go).
--   Billing/Tenant.antt: the payment state of a tenant as the webhooks, the dunning and the expiry of
--     the grace period change it (internal/billing/dunning.go, lifecycle.go, provision.go,
--     webhook_handlers.go). Billing/TenantsTable.antt is the row with the columns and checks that
--     migrations/001_tenants.up.sql and 038_tenant_billing_columns.up.sql give the table, and which
--     UPDATEs are run on it. Whether the database answers is an input.
--   Briefings/TimeRule.antt: matchTime (internal/briefings/rules_eval.go).
--   Calendar/Conflicts.antt: DetectConflicts (internal/calendar/conflicts.go).
--   Calendar/Slots.antt: SuggestSlots (internal/calendar/slot_engine.go), for any scores.
--   Calendar/Approval.antt: ApproveSlot (internal/calendar/slot_approve.go, conflict_realtime.go).
--   Email/Connections.antt: ConnectionManager and Reconnector (internal/email/connection).
--   Email/Credentials.antt: CredentialStore, and the direct read of the cron scheduler
--     (internal/email/credentials.go, internal/orchestrator/cron.go).
--   Email/Emails.antt: the insert and the lookup of DedupService (internal/email/dedup.go).
--   Email/Sync.antt: SyncEngine with both syncers and the cursor (internal/email/sync), and the poll
--     of the cron scheduler, in Email/Sync/Engine.antt; MIME parsing and threading are an interface.
--   Email/Threads.antt: AssignThread, and Email/Subjects.antt: NormalizeSubject
--     (internal/email/threading.go); the threads fill the interface of the sync.
--   Crypto.antt: Encryptor and RotatingEncryptor (internal/crypto); Crypto/Library.antt states base64,
--     HKDF and AES-GCM as an interface with their documented laws.
--   Tasks/Priority.antt: Score (internal/tasks/priority.go).
--   Tasks/Recurrence.antt: ProcessRecurrence (internal/tasks/recurrence.go, recurring.go).
--   Base.antt and its children: shared names, tests, lists, tables, counts, and runs of steps.
-- The modules below a component hold its proofs, and its Tests runs it at concrete inputs.
--
-- Numbers, time and fuel: identifiers and texts that are only compared are natural numbers. Times are
-- nanoseconds (seconds for tasks, milliseconds for cron), and clocks do not go back. Token counts of billing keep their int64 wrap-around. The
-- tokens of the bucket, which are floats, are counted exactly in parts of a token. The loop of the
-- supervisor and that of the reconnector run over the list of what they meet, and say so if the list
-- ends first. The candidate loop of SuggestSlots runs on fuel: one step for each nanosecond of the
-- range, and one more, since a positive increment moves on by a nanosecond at least. The loop of the
-- cron scheduler runs on fuel: of two passes one at least takes time, since a pass in which no ticker
-- fired waits. The batches of a sync are cut off on fuel, the number of UIDs.
--
-- Not modelled: the HTTP handlers, which decode a request, run SQL and encode the answer; the
-- providers of AI, mail, calendars, chat and payment, which are clients of services; prompts and
-- retrieval; analytics over floats; configuration, logging and metrics. The services of a bundle and
-- its health report, sending mail, the circuit breaker of the AI providers, the rest of briefings and
-- of tasks, and promotions have logic of their own that is not modelled. SQL that the source runs
-- without an order is read in the order of the table.
-- Two requests that run at once are not interleaved inside an operation that holds a lock, nor inside
-- one SQL statement.
mod Base
pub mod Plan
pub mod Orchestrator
pub mod Ai
pub mod Middleware
pub mod Auth
pub mod Billing
pub mod Briefings
pub mod Calendar
pub mod Crypto
pub mod Email
pub mod Tasks
