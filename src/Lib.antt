-- ===== src/Lib.antt =====
-- The controller of Nginx Atlas: a Go server that keeps nodes, domains, certificates and jobs in one
-- state, and hands the jobs to the agents that run on the nodes.
--
-- A request is a transaction on the state. The store (internal/store/store.go) runs it on a copy and
-- keeps the result or nothing; the handlers of the agents (internal/server/agent_api.go), of the
-- administrator (node_management.go, admin.go) and the scheduler (scheduler.go) are functions that
-- the transaction applies. A job is queued by enqueueJob, started when its node polls, and ended by a
-- result, a timeout, the confirmation of an update or the removal of its node.
--
-- The files:
--   Prelude        bytes, maps with text keys and lists, over the native numbers
--   Model          internal/model/model.go
--   Protocol       internal/protocol/protocol.go, and the job payloads of internal/server/admin.go
--   SecureBox      Seal, Open and ParseKey of internal/securebox/securebox.go
--   Effects        the environment of a transaction (clock, random source, JSON), the state with its
--                  writes, loops over maps, addAudit and enqueueJob
--   Reports        validateNodeReport, applyNodeReport, appendNodeStatusSample and the text helpers
--   Sites          internal/nginxconfig/config.go: the names and the text of a site's configuration
--   Release        parseReleaseVersion and versionUpdateAvailable of internal/server/release.go
--   Versions       requireVersionUpgrade of internal/agent/executor.go, beside Release
--   Jobs           the questions the controller asks of its jobs and certificates
--   Wire           buildWireJob and prepareCertificateResult of internal/server/agent_api.go: what
--                  an agent is sent, and what the certificate that it sends back becomes
--   Updates        internal/server/update_confirmation.go
--   Agents         internal/server/agent_api.go: enrollment, poll with its answer, job result,
--                  unregistration
--   Removal        revokeNodeState of internal/server/node_management.go and its callers
--   Scheduler      runMaintenance of internal/server/scheduler.go, certificate_sync_recovery.go
--   Commands       the updates that the administrator asks of nodes: handleUpdateNodeSystem,
--                  handleUpdateNodeAtlas and handleUpdateAllNodesAtlas of
--                  internal/server/node_management.go
--   Administration the requests of internal/server/admin.go: retry and removal of jobs, the audit,
--                  enrollments, removal of domains and certificates, sync, issue and renewal,
--                  DNS and ACME accounts
--   Lifecycle      what these do to the jobs, one by one and in any sequence of committed steps
--                  (Lifecycle/Traces); failDispatch is a step only while its job is there and running,
--                  and handleClearPendingJobs is none
--   Store          Update, normalize and Subscribe of internal/store/store.go
--   Events         tickets and pending handshakes of internal/server/events.go
--   Logins         internal/server/login_limit.go
--   Tests          concrete states and runs
--
-- Names are those of the source in snake_case. A Go string is its list of bytes. A map is an
-- association list, whose order is the order of a range over it; the theorems hold of every list, so
-- of every order. An enrollment takes the order of its range as an argument, since two requests range
-- differently; between the steps of a trace every map may change its order. A time is a number of nanoseconds, 0 being the zero time; a difference of times
-- stops at 0, which no comparison with a positive bound can see. A counter of a job or a length is a
-- natural number, the port of a site an integer, the revision of the store wraps at 2 ^ 64. A handler reads the clock and the random
-- source through the environment, which answers the n-th read. No function here needs fuel but the
-- decimal digits of a number in an audit id, where 20 digits are enough for 64 bits.
--
-- Not modelled: HTTP, files and the work of the agents on their nodes. Ciphers, X.509, hashes, JSON,
-- strings.ToLower and network addresses are parameters. The random order of a map whose loop adds keys is
-- taken to visit the old keys only. The bucket of password checks uses floating point numbers.
pub mod Prelude
pub mod Model
pub mod Protocol
pub mod SecureBox
pub mod Effects
pub mod Reports
pub mod Release
pub mod Jobs
pub mod Wire
pub mod Updates
pub mod Sites
pub mod Versions
pub mod Agents
pub mod Removal
pub mod Commands
pub mod Scheduler
pub mod Administration
pub mod Lifecycle
pub mod Store
pub mod Events
pub mod Logins
pub mod Tests
