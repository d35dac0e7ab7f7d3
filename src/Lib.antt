-- ===== src/Lib.antt =====
-- SampMail, a platform for bulk mail (repository pulak-ranjan/sampmail): a verification library of the
-- parts of its server, written in Go, that decide what is mailed, to whom, and how fast.
--
-- A campaign (internal/core/campaign.go) mails a list of recipients. One goroutine, the feeder, fetches
-- pending recipients in batches, drops those on the suppression list, and hands the others to a pool of
-- workers; a collector takes the workers' results, writes them to the table, counts them, and stops the
-- campaign by its bounce brake. Users pause, resume and cancel it through a control. Each mail's domain
-- is limited by a table of limits and by counters in Redis (internal/core/domain_limiter.go), and a new
-- sender by its warmup schedule (internal/core/warmup.go). Calls of outside services pass through
-- circuit breakers (internal/core/circuit_breaker.go), and failed sends are classified and retried by a
-- policy (internal/core/retry.go). The suppression list stands in internal/store/db.go.
--
-- The files:
--   Prelude: names and lemmas that all parts share: tests and lists over the native numbers, maps as
--     association lists, Go's text functions on lists of character codes, and float64 as a record of
--     operations with the facts of IEEE arithmetic that the theorems use (Floats), with an instance.
--   Breaker: internal/core/circuit_breaker.go. The state machine (allowRequest, recordSuccess,
--     recordFailure, setState, Execute), and in Breaker/Registry GetCircuitBreaker,
--     RegisterCircuitBreaker and InitCircuitBreakers over a heap of breakers. Time is a number of
--     nanoseconds, given to each call.
--   Limiter: internal/core/domain_limiter.go. The table of limits with its pointers as places in a heap,
--     its read-write lock as a state, and the calls as a monad whose result may be that the call waits
--     for ever (getLimit, applyWarmupFactor, SetWarmupFactor, SetCustomLimit, NewDomainLimiter);
--     Limiter/Window: checkLimit and Allow over Redis, a parameter with the facts of INCR and EXPIRE.
--   Campaign/Control: the control of a running campaign (GetCampaignControl, PauseCampaign,
--     ResumeCampaign, CancelCampaign, GetCampaignStatus); a channel that is only closed is a Boolean.
--   Campaign/Pipeline: processCampaignWithPool and sendWorker as a step function on the shared state;
--     an event is one step of one goroutine, and a run is a list of events in any order. A
--     fetch carries what the database answers, the map of the suppression list for its batch included;
--     the mail server's answers are part of the events too. StartCampaign's checks. The shared state
--     and the collector's work on one result stand in Campaign/Pipeline/Shared.
--   Campaign/Import: ImportRecipientsFromCSV over the records that the CSV reader gives.
--   Campaign/Launches: StartScheduledCampaigns, ResumeInterruptedCampaigns and the two ends of
--     StartCampaign as steps on the table of campaigns, in any order.
--   Campaign/Worker: sendWorker over SMTP and sendSingleRecipient, with the answers of the network and the
--     mail server given for each job; the text of the mail is left out.
--   SmtpPool: internal/core/smtp_pool.go. A step is what happens under one hold of the lock or at one
--     receive or send; a run is any list of steps. Slices: the loop of checkConnections with the array
--     that it shortens.
--   Suppression: AddSuppression, IsSuppressed, RemoveSuppression and BulkCheckSuppressed of
--     internal/store/db.go, over a list of rows.
--   RateLimit: internal/middleware/custom/redis_ratelimit.go. The script of the sliding window and Allow;
--     Address: GetRealIP of internal/middleware/custom/ratelimit.go with IsTrustedProxy of
--     internal/config/config.go, over what the package net finds in a text.
--   Retry: internal/core/retry.go. ShouldRetry with its codes and patterns (Retry/Patterns), calculateDelay,
--     GetRetrySchedule, ExecuteWithRetry. The loop recurs on the attempts that are left, as many as the
--     source's loop allows, so no other bound is chosen.
--   Warmup: internal/core/warmup.go. ParseWarmupRate, GetWarmupRateForSender, GetSenderRate,
--     GetWarmupFactor, and the daily step of ProcessDailyWarmupWithConfig; the table of schedules and
--     the parsing of a rate stand in Warmup/Schedules.
--   AbTest: internal/core/ab_test.go. CreateTest, StartTest, SelectWinner, DeleteTest and
--     GetVariantForRecipient over the table of tests and the map of active tests.
--   Bounce: internal/core/bounce_processor.go. Lines: parseLogLine with its regular expressions as
--     functions; Logs: processLogFileIncremental; Classes: classifyBounce; Record: recordBounce and
--     ProcessComplaint over the tables, the suppression list of Suppression among them; Accounts: the
--     tests of account names, also of internal/core/bounce.go.
--   Firewall: internal/firewall/blocker.go. The blocker in memory and the guard of BlockIP; net.IP is a
--     parameter.
--   Automation: internal/core/automation_engine.go, with the types of internal/models/models_v2.go. Nodes:
--     executeNode and the function of each kind; Values: the configuration and the conditions; Walk:
--     executeFromNode; Engine: EnterContact, TriggerEvent and processDelayedActions. Everything outside
--     the program answers by the history of the calls made so far. The walk's fuel is its depth of
--     calls; Termination and Cycles say when a depth is enough and when none is. Invariant is the rule
--     by which the claims on a walk are proved.
--   Totp: internal/core/totp.go. generateTOTPCode and ValidateTOTP over base32 and an HMAC, which are
--     parameters; the padding of a secret is given seven rounds, enough to reach a multiple of eight.
--   Webhook: internal/core/webhook.go. ValidateWebhookURL, isKnownWebhookService and isInternalIP; the
--     parsing of URLs and the lookup of names are parameters.
--
-- Numbers are natural numbers where the source's integers are not negative. Texts are lists of codes, and
-- letters outside ASCII keep their case. The decimal printer of Prelude/Strings has fuel,
-- one step more than the number. Loops of the program recur on their lists or on the rounds they have
-- left; the pipeline's loops are runs of any length.
--
-- Not modelled: the text of a message, its delivery over the HTTP API, the API's handlers, the
-- assistants, the mail server's configuration, logs, the updater, migrations, the web pages; and for
-- the present the job queue, the statistics of A/B tests, the drip mails of
-- internal/core/automation.go, the parsing of bounce mails and the validation of lists.
pub mod AbTest
pub mod Automation
pub mod Bounce
pub mod Breaker
pub mod Campaign
pub mod Firewall
pub mod Limiter
pub mod Prelude
pub mod RateLimit
pub mod Retry
pub mod SmtpPool
pub mod Suppression
pub mod Totp
pub mod Warmup
pub mod Webhook
