-- ===== src/Lib.antt =====
-- A verification library for fairway, an event-sourcing framework on FoundationDB: an event store with
-- append conditions on queries by type and tag (dcb/), commands that read and then append (command.go,
-- view.go), automations that work on events through a job queue (automation*.go), and a middleware for
-- idempotent HTTP requests (utils/http.go).
--
-- Base holds the shared lists, orders, sorting and big-endian bytes. Fdb is the database, which is not
-- code of the repository: Fdb.Tuples.Database is an interface with its documented behaviour as laws, and
-- Fdb.Memory an instance, on which the tests run. A key is its tuple, a byte string a list of numbers, a
-- versionstamp the number that its twelve bytes hold, an int64 its 64 bits. A transaction is one
-- function on the database; the time, random bytes and transaction versions are arguments.
--
-- Dcb.Types, Dcb.Subsets, Dcb.Index: dcb/dcb.go (events, queries, generateAllSubsets, buildQueryRanges).
-- Dcb.Append: dcb/append.go. Dcb.Decode, Dcb.Read and Dcb.ReadAll: dcb/read.go (decodeEvent and fetchEvent;
-- readEvents with its merge; Read and ReadAll). The priority queue of the merge is an interface.
-- Dcb.Log is the specification: a list of events in the order of their positions, what it means that a
-- database represents it, and appends on it; a read of the log is Dcb.Read.Deliver, a plain loop.
-- Command: the read appender of command.go and the reader of view.go, on the interface DcbStore, which
-- Command.Store fills with the event store and Command.Reads with reads of the log. Command.Runner: the
-- runners and their retries, on an interface for the retry library.
-- Automation: automation.go (Types, Options, Registry), automation_queue.go (Jobs, Queue), automation_dlq.go (Dlq),
-- automation_watcher.go (Watcher) and automation_worker.go (Worker). A worker claims a job of the queue by
-- a lease, runs it, and deletes it, puts it back, or moves it to the dead letter queue.
-- Idempotency: utils/http.go; the requests with one key are steps of a relation on a shared state.
-- Query: query.go, and the registry of types of view.go.
-- Command.Plans: commands that read once and then decide, as the examples are written: a plan is the query,
-- the handler and the decision of a Run. Command.Plans.Sequential has the logs that any clients reach,
-- and the events that they would append one at a time.
-- Routes: the registries of net_http.go. Generator: cmd/gen_init_imports.go; Generator.Packages says which
-- packages it looks for.
-- Examples.Library: examples/library/borrow_book.go, a command that reads twice and appends, while other
-- clients append between its steps; Examples.Library.Loans says which books a borrower holds.
-- Examples.Todo: examples/todolist. Examples.Users: examples/realworldapp, its commands
-- (Users, Changes), views (Views), HTTP handlers (Handlers) and welcome email (Welcome). Examples.Http:
-- JsonParse of utils/http.go, and responses as they are written.
-- Tests: the theorems on concrete inputs.
--
-- Bounds: user versions are below 2^16 and wrap as uint16(i) does; the loop over tag subsets runs on the
-- 64-bit int, so the log is stated for fewer than 63 tags an event; lease and backoff times are stated
-- below 2^63. Dcb.Read.merge recurses on fuel: each round takes one versionstamp out of the iterators, and
-- the fuel is their number and one more.
--
-- Not modelled: metrics and logs; JSON and reflection, which are arguments; the
-- loops of goroutines over channels and tickers; the delays of retries; bcrypt and
-- JWT, which are arguments; the main functions, test helpers and the benchmark.
pub mod Base
pub mod Fdb
pub mod Dcb
pub mod Automation
pub mod Idempotency
pub mod Command
pub mod Query
pub mod Routes
pub mod Generator
pub mod Examples
pub mod Tests
