-- ===== src/Lib.antt =====
-- go_sdk: the core of the Go SDK of the Agent Runtime Control Protocol. A server runs agents on
-- behalf of clients: a client opens a session, submits jobs under a lease, and follows the events
-- of a job; a session that loses its transport can be resumed for a while.
--
-- Strings are lists of their bytes (`Text`), maps are association lists (`Dict`), an instant is a
-- number of nanoseconds, and a Go error is a value. A method that holds a mutex is one step.
--
--   Prelude, Strings  shared helpers: tests, lists, maps, equality; the functions of package strings
--   Glob              internal/glob/glob.go: Match, Covers and their helpers
--   Errors            errors.go: codes, sentinels, chains, Code, IsRetryable
--   Lease             lease.go and internal/lease: budget amounts (Budget), canonical targets (Path),
--                     the per-job state with ValidateOp, Debit, ValidateAndDebit and Report (State),
--                     and IsLeaseSubset (Subset). Subset uses Covers of Glob and State uses Match
--   Clock, Auth       internal/clock/clock.go: the mock clock; auth/auth.go: StaticBearer
--   Credentials       credentials/memory.go: the in-memory provisioner
--   EventLog          internal/eventlog/eventlog.go: the retained events of each session
--   IdStore           internal/idstore/idstore.go: idempotency keys
--   Features, Agent   features.go, filterFeatures of server/server.go; messages/agent.go
--   Server            server/server.go, server/session.go, server/job.go, server/jobcontext.go:
--                     the agent registry (Agents), resumption of sessions over EventLog (Resume),
--                     the end of a job (Job), result streams with the client's CollectChunks of
--                     client/handle.go (Stream), listJobs (Listing), what the sessions share and
--                     how an envelope leaves it, with server/subscription.go (World), the handlers
--                     of a session (Session), handleJobSubmit over World and IdStore (Submit), the
--                     dispatch of requests (Dispatch), what a running job sends (Emit), and its
--                     tool events with the checks of messages/event.go (Tools)
--
-- Goroutines that share a job are modelled by their steps (Server/Job): `step` takes one step of
-- one of them, and a list of events is an interleaving. In World a handler is a function, which is
-- what one goroutine does when no other comes between; a list of calls (Server/Emit/Calls) is an order
-- in which they come, and the parts that other goroutines can come between (taking a number, sending
-- the envelope that has it, granting a subscription) are calls of their own there. World has no
-- janitor: what it drops is in Resume. The heap of listJobs is a list in its order, whose last job is
-- the root. The functions of the mock clock's timers are a parameter.
--
-- Loops are structural recursion, except the loop of streamedResult.Write, which has the number of
-- bytes as its fuel: each turn takes at least one byte.
--
-- Code outside the repository is a parameter: float64 and strconv.ParseFloat (`Floats`, with what
-- IEEE 754 says of them in `IsIeee`), net/url (`Urls`), json.Marshal (`Runtime`), base64 and the
-- conversion of text to JSON (`Codec`), strconv.Atoi (`Atoi`), FormatInt and ParseInt (`Decimals`),
-- the hash, the JSON and the provisioner of a submit (`Services`), and the arithmetic and the JSON of
-- a metric (`Metering`). Integers of the source are unbounded here: the sequence numbers have 64 bits
-- and are not counted up to their end. Where the code subtracts them, the difference wraps around
-- (World, `sub_u64`).
--
-- Not modelled: the wire format and the transports, which are input and output, the handshake of a
-- new session and the loops that read and write its transport, the client but for CollectChunks, the
-- retries of a revocation, and the middleware.
pub mod Prelude
pub mod Strings
pub mod Glob
pub mod Errors
pub mod Auth
pub mod Clock
pub mod Lease
pub mod EventLog
pub mod IdStore
pub mod Features
pub mod Agent
pub mod Server
pub mod Credentials
