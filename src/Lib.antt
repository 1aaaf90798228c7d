-- ===== src/Lib.antt =====
-- Models of the core of iFlyGo, an upgrade manager for fleets of hosts, and what is proved of
-- them.
--
-- The server keeps upgrade tasks in a database. A user creates a task, whose hosts are split into
-- batches, and starts, pauses, promotes, cancels or retries it (internal/logic/task/dispatch.go,
-- retry.go). An orchestrator ticks every few seconds (orchestrator.go): it makes commands for the
-- hosts of the first batch that is not over, waits until they are done, and closes the batch; then
-- it goes on, pauses the task, or ends it. Agents fetch the commands, take or refuse them, tell
-- the stages they come to and report the results (internal/logic/agentgw/gateway.go); what they no
-- longer report, a reconciliation before each tick gives up (reap.go). Every query is restricted
-- to the tenants that the user may see (internal/pkg/scope), whose administrators manage their
-- accounts (internal/rbac). Uploads are limited in number (internal/logic/artifact/limiter.go) and
-- requests in rate (internal/middleware). The nodes of an overlay network get their addresses from
-- an allocator (internal/ipam).
--
-- Files:
--   Prelude          the libraries' names, Boolean tests, lists, integers and maps
--   Text             strings of characters and their UTF-8
--   Db               statements and transactions on any rows, any of which may fail
--   Protocol         commands, signed paths and capabilities (internal/protocol/protocol.go)
--   Signer           Sign and Verify (internal/pkg/signer/signer.go)
--   Agent            verifyCommand (internal/agent/agentrun/run.go)
--   Access           User and its roles (internal/auth/auth.go), Scope (internal/pkg/scope/scope.go)
--   Ipam             Allocator (internal/ipam/ipam.go)
--   Ipx              ranges of addresses (internal/pkg/ipx/ipx.go)
--   Rbac             accounts and roles (internal/rbac/rbac.go)
--   RateLimit        RateLimiter, DynamicRateLimiter (internal/middleware/ratelimit.go)
--   UploadLimiter    uploadLimiter (internal/logic/artifact/limiter.go)
--   Task.Rows        the rows of one task in upgrade_tasks, task_batches, task_hosts and commands
--   Task.Db          the statements of Db over these rows
--   Task.Owner       checkTaskOwner, ownerChecker, checkTaskDeploy (internal/logic/task/task.go)
--   Task.Api         Start, Promote, Pause, Cancel (internal/logic/task/dispatch.go)
--   Task.Retry       Retry (internal/logic/task/retry.go)
--   Task.Batches     splitBatches (internal/logic/task/task.go)
--   Task.Orchestrator, Task.Advance
--                    the orchestrator (internal/logic/task/orchestrator.go), from the single writes
--                    (completeBatch, finishTask) and dispatchBatch up to advance and tick
--   Task.Reconcile   what the reconciliation before each advance may do to the rows of a task
--   Task.System      reconciliations, advances and actions one after the other, in any order;
--                    Task.System.Ticks makes a whole tick a reconciliation and an advance
--   Agentgw.Rows     the rows of the gateway in commands, task_hosts, agents and hosts
--   Agentgw.Sanitize sanitizeLog, truncateUTF8, appendLog and their callers (sanitize.go)
--   Agentgw.Dequeue, Agentgw.Ack, Agentgw.Stage, Agentgw.Report
--                    Dequeue, Ack, UpdateStage and Report (gateway.go)
--   Agentgw.Reap, Agentgw.Sync
--                    FinalizeCompletedStages and ReapExpired, SyncTaskHostsFromCommands and
--                    ReconcileTasks (reap.go)
--   Agentgw.Delivery AgentSigningInfo and the signing of a command in Dequeue; Agentgw.Delivery.Poll is
--                    Dequeue as a whole
--   Agentgw.Maintenance
--                    VerifyToken and EnterMaintenance (gateway.go)
--   Agentgw.Keeps    what a property must survive so that a request or a reconciliation keeps it
--   Agentgw.Lifecycle
--                    the abstract machine of one command
--   Agentgw.System   requests, reconciliations, new commands and cancellations, in any order
--   Agentgw.Late     what comes for a command that is withdrawn
--
-- An action on the database of tasks or of the gateway is a function on the rows and on a list of
-- faults: each statement takes the head of the list, and where it is `true` the statement fails
-- and does nothing. A transaction gives back the rows of its beginning unless its commit succeeds;
-- a commit that reports an error is taken as one that did nothing. A theorem for every list of
-- faults is one for every pattern of failures; one for the empty list is one for a database that
-- works. A tick is a
-- reconciliation, of which the rows of one task only show that some of the commands in hand have ended
-- and some of its waiting hosts have got a result, and then an advance. The steps are taken one after
-- the other: that the statements of two actions
-- interleave is not modelled, and the row locks that the code takes against it only find out
-- whether the row exists. The gateway has its own, fuller rows of commands and hosts: a step of
-- the orchestrator or of a user is there the making of a command or the withdrawal of some, with
-- the hosts of tasks set at will.
--
-- A text of the gateway is the list of its characters, since what the JSON decoder hands on is
-- valid UTF-8; where the code counts or cuts bytes, the text is encoded. Columns that keep JSON
-- are records of the fields that the code reads.
--
-- For accounts and addresses, the table that an operation reads and the one that it writes are two
-- arguments, so the theorems hold whatever others write in between; there no statement fails.
--
-- Bounds: wakeLocked runs on fuel, the number of waiters, of which each round takes one; the loop
-- of splitBatches on the number of hosts, of which each round takes at least one; that of Allocate
-- on the number of addresses of the prefix, one per round; the loop of expandRange on a number of
-- rounds that is an argument, since the code bounds it only by the size of the range. A reaping
-- takes 500 commands, as in the code. Counters are unbounded, but for the delay of a maintenance, which is computed in 64 bits; the limits and sizes that the
-- code reads are integers with their signs. Times are nanoseconds as natural numbers.
--
-- Parameters: the tables hosts, agents, artifacts and components, the settings and the clock
-- (`Env`, `Service`), whether the database driver takes an argument that the query does not name
-- (`takes_extra_args`; lib/pq refuses it), the test of a failure rate against its threshold, which the code makes with
-- floats (`exceeds`), the choice of a waiter that Go's map iteration makes, and the trimmed name
-- of the acting user (`operator`), and for accounts `strings.TrimSpace`, bcrypt and the table of
-- tenants, for addresses the texts of netip (`show`, `parse`), and for the gateway the clock as a
-- text (`stamp`) and the quoting of `%q` (`quoted`), the JSON of a payload (`marshal`),
-- HMAC-SHA256 (`mac`) and SHA-256 (`hash`) as hexadecimal texts.
--
-- Not modelled: the reading of IP expressions, CIDR blocks and exclusions, the creation of a
-- task's rows and its deletion, the list of accounts, HTTP handlers, the agent but for its check
-- of commands, settings and migrations.
pub mod Access
pub mod Agent
pub mod Agentgw
pub mod Db
pub mod Ipam
pub mod Ipx
pub mod Prelude
pub mod Protocol
pub mod RateLimit
pub mod Rbac
pub mod Signer
pub mod Task
pub mod Text
pub mod UploadLimiter
