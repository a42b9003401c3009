-- ===== src/Lib.antt =====
-- The fleet runner of SporeVM on Kubernetes. A run asks for a range of children, forked from one bundle, to
-- be executed on a cell of agents. The coordinator (internal/fleet) checks the documents, plans a lease of
-- the whole range for one agent, and calls that agent's executor until each child has a terminal result or
-- the attempts are used up. The node agent (internal/agent) admits a lease against its slots, runs each child
-- and reports an attempt result; it also prepares bundles, runs single commands and keeps named sandboxes, for
-- which it builds boot templates and removes those that are old.
--
-- Files and code:
-- - Fleet/Types.antt is internal/fleet/types.go: one record for each struct, with the field's names.
-- - Fleet/Patterns.antt is the regular expressions and text tests of internal/fleet/validate.go, with what
--   they accept under Fleet/Patterns (Ids, Memory, S3).
-- - Fleet/Validate.antt is the Validate methods, and Run.Compile, of internal/fleet/validate.go, with the conditions
--   on the documents under Fleet/Validate (Spec, Runs); Fleet/Attempts.antt is FormatAttemptID and the checks
--   of attempt results, with the ids under Fleet/Attempts.
-- - Fleet/Plan.antt is internal/fleet/coordinator.go: BuildSingleAgentSequentialPlan. Under Fleet/Plan stand the
--   sort (Sorting), the scan of the inventory (Candidates), what a plan chooses (Choice), why it is refused
--   (Refusals), the order of the inventory (Order) and the check of the lease (Leases).
-- - Fleet/Runtime.antt is the runtime state of internal/fleet/runtime.go; Fleet/Runtime/Lease.antt is runLease and
--   NewCoordinator, Fleet/Runtime/Coordinator.antt is Coordinator.Run, and Fleet/Runtime/Timings.antt is the
--   percentiles. The other files under Fleet/Runtime are their proofs.
-- - Prelude.antt and the files under Prelude are the shared helpers: numbers, texts, decimals, Base64, maps.
-- - Agent/Slots.antt is the slot limiter and AdmitShard of internal/agent/runtime.go, with its accounting
--   (Invariant) and the admission of planned leases (Admission). Agent/Machine.antt is the run events and errors of
--   internal/agent/machine.go, with the form of a stream (Stream), its requests (Requests), its documents (Documents)
--   and its host facts (HostInfo). Agent/Output.antt is the summary of an attempt's output, with its previews
--   (Preview) and its meaning (Summary). Agent/Attempt.antt is the request, the error reports and the outcome of one
--   child attempt, with its agreement with the contract (Outcome).
-- - Agent/AttemptRecord.antt is how an attempt is recorded, and Agent/Child.antt runChild as a whole, with
--   what it records (Recorded) and leaves alone (Frame); Agent/Shard.antt is RunChild, RunShard and
--   internal/agent/coordinator_adapter.go, with what a shard leaves of the agent (Slots) and returns (Slice).
-- - Agent/Results.antt is the local result store of internal/agent/result_store.go, with its create-only
--   commits (FirstWins) and the paths of its objects (Paths). Agent/Cleanup.antt is the ledger of prepared
--   spores of internal/agent/runtime.go, with the ledgers that pass its check (Ledger).
--   Agent/PreparedTree.antt is the directory of a prepared run with its ledger, and Agent/Prepare.antt the
--   preparation of bundles and its release, with the removal of a spore (Removal), the loop over the ledger
--   (Progress), and the gate of each run (Gates, with Counts and Exclusion under it).
-- - Agent/Interactive.antt is the requests and responses of internal/agent/interactive.go, with its images (Images).
--   Agent/Sandboxes.antt is the steps into which the mutexes divide its handlers, with how they are counted (Counts),
--   what they keep (Invariant, Steps), who holds a slot (Holders) and that the slots suffice (Capacity).
--   Agent/Handlers.antt is the handlers as a whole, and Agent/Handlers/Refinement.antt compares them with the steps.
-- - Agent/Templates.antt is the boot templates of internal/agent/interactive.go, with their users (Leases) and what they
--   leave alone (Frame); Agent/Templates/Reconcile.antt is internal/agent/template_reconcile.go, with its counts
--   (Accounting), the retained templates (Removal, Retention), their order (Newest) and those in use (Uses, InUse).
-- - Agent/Client.antt is what the agent calls (machine, store, clock, file system) and the Runner's state, Agent/Io.antt
--   functions of that state that may fail, with the parts that they keep (Frame), and Agent/Host.antt the status of an
--   agent and the collection of its cache.
-- - Fleet/Samples.antt, Agent/Toy.antt and the files named Examples are concrete runs.
-- - Errors.antt is the error values, and functions that return an error or a value.
--
-- How the state is modelled: a method that changes a struct takes the struct and returns it. What the
-- coordinator calls (the clock, the context, the inspector, the result reader, the executors) is a record of
-- functions, `Env`, over an unknown world that each call may read and change; nothing is assumed of it but
-- where a theorem names it as a hypothesis.
--
-- What the agent calls is a record of functions over an unknown world too (`Config`), and a Runner's state with the
-- world is a `Node`. A function of the agent takes the Node and returns a result and the Node behind it; an error
-- does not undo what was done before it, and a deferred call is done however the function returns. Where a theorem
-- is about interleavings, one critical section of a mutex is one step, and what a goroutine keeps between two
-- of them is an operation in flight.
--
-- Numbers: `int` and `int64` are integers, and their sums wrap at 64 bits where the code adds. Times are
-- integers of nanoseconds, and floating point numbers integer counts of the least double, with the machine's sums
-- as an argument. So is a percentile's rank, whose rounding is the machine's. Counters of documents held in memory are natural
-- numbers.
--
-- Loops: a loop over a range recurses on the number of rounds that its bounds give, which is how often Go
-- goes round. removePreparedSpore tries again at each tick of its timer until its context ends; the number of
-- ticks before that is an argument, which no theorem restricts. No other fuel is used.
--
-- Not modelled: decoding JSON (encoding/json), the deadlines of contexts, the interleavings of RunShard's workers (each
-- job is run to its end before the next one; its result is written at its index), the spans of prepared bundles (an argument) and of interactive responses, a response that is returned beside an error, the
-- S3 result store, the process and the command lines of the virtual machine, HTTP, and the command line programs
-- under cmd.
pub mod Prelude
pub mod Errors
pub mod Fleet
pub mod Agent
