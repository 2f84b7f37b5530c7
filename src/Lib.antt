-- ===== src/Lib.antt =====
-- A model of the core of the AI coding workflow: the content-addressed workflow state with its
-- event log, the broker that admits and records the calls to models, the plans of parallel runs
-- and the ledger of rejected hypotheses.
--
-- Parts. scripts/workflow_state.py keeps one state of a task and the log of the events that led to
-- it: an event changes the state by one mutation, the successor names the hash of its predecessor
-- as parent, and `replay_events` rebuilds the state from the log. scripts/apply-workflow-delta.py
-- applies a list of mutations to the current state and appends their events to the log.
-- scripts/model-call-broker.py keeps a ledger of the calls to models, each a reservation that goes
-- from reserved to running to succeeded, failed or cancelled, and decides by budget, duplicate
-- evidence and request cap whether a call may be made. scripts/owner_lease.py selects who owns a
-- task and grants, expires and revokes leases on it, scripts/classify-claude-attempt.py decides
-- what a finished attempt counts for, and scripts/select-review-tier.py who reviews a result.
-- scripts/validate-parallel-plan.py checks the plan of a parallel run and orders its tasks.
-- scripts/hypothesis_ledger.py keeps the hypotheses that were rejected and tells whether a
-- proposal repeats one; scripts/update-hypothesis-ledger.py rejects in the state and the ledger
-- together. The scripts meet in the documents that they pass on; they call the functions of
-- workflow_state.py, and the last those of hypothesis_ledger.py too.
--
-- Files. Prelude holds Python's Booleans, texts, lists, dictionaries, stable sorting and raised
-- errors. Json is the untyped documents of the events' payloads. WorkflowState/Model has the
-- records of states and events, Paths `is_safe_repo_path_pattern`, Validation `validate_state` and
-- `validate_event`, Mutation `apply_mutation`, Chain `finalize_transition`, `replay_events` and
-- `apply_delta`. Broker/Ledger has `load_ledger`, `fold_by_reservation` and
-- `validate_ledger_history`, Broker/Checks `check_budget`, `check_duplicate`,
-- `check_request_idempotency` and `allocate_reservation`, Broker/Execution `execute` and
-- `record_diagnostic`. OwnerLease/Model has `validate_request` and `validate_lease`,
-- OwnerLease/Selection `select_owner` and `transition_lease`, Attempt/Classify `classify`,
-- Review/Tier `select_tier`, Monitor/Lifecycle `evidence_state` and `lifecycle_state` of
-- scripts/claude-monitor-decision.py. ParallelPlan/Graph has the search for cycles of
-- `validate_plan`, ParallelPlan/Checks and ParallelPlan/Validation the rest of it, and
-- ParallelPlan/Order `topological_sort`. Hypotheses/Model has `validate_ledger`,
-- Hypotheses/Operations and Hypotheses/Ledger the operations on the ledger of hypotheses, and
-- Hypotheses/Command the rejection by scripts/update-hypothesis-ledger.py. The other files hold
-- proofs, and the files named Examples or Runs the concrete runs.
--
-- Correspondence. A definition has the name of its function, without a leading underscore; the
-- loops and branches of a long function are definitions of their own, which its comment names. A
-- Python dictionary with a fixed set of keys is a record, so that the tests for missing keys and
-- for types are the typing; the payloads of events, which the code reads key by key, stay JSON. A
-- raised exception is `err`, and a validator returns the list of what it found. Files are passed
-- as their contents: the state and the events of its log, the records of the ledger. Hashes of
-- states and events are a parameter, the record `Hashing`, with what the code relies on: they are
-- sha256 digests in their textual form; likewise those of leases and of the ledger of hypotheses.
-- The normal form of a statement, the similarity of two, os.path.normpath, Path.resolve and
-- Path.is_file, and the order in which a set is walked through are parameters. Whether a regular
-- expression matches an error text is an input of `classify`. The clock is an argument. `execute`
-- takes the outcome of the command, the point at which an exception or a signal arrives, and the
-- point at which a second one stops the handler; the points lie between the appends, each of which
-- writes its whole line or nothing. The lock makes the checks and the two first appends one step,
-- and a call is modelled from its checks to its last record without records of other calls in
-- between. `validate_plan` takes the cards for which Path.resolve or Path.is_file raises OSError,
-- and the number of nested calls of `dfs` that Python allows before RecursionError.
--
-- Bounds. Recursion is structural, over lists, JSON documents and texts, but for two loops of the
-- plans. `dfs` recurses on the depth that Python allows, and reaching it is the outcome
-- RecursionError; the number of ids is depth enough, since each call colors a white node gray. The
-- `while` loop of `topological_sort` runs on fuel, one more than the number of tasks, which is
-- enough since each round puts another one into the result. Numbers are natural numbers;
-- revisions, timestamps and counts of the source are never negative, and a negative budget is
-- refused by it as zero is.
--
-- Not modelled. The reading and writing of the event log, file locks, durable writes and size
-- limits of files, the start of processes, command lines, printed messages, the fields of ledger
-- records that nothing reads back, and the other scripts of the repository.
mod Prelude
pub mod Json
pub mod WorkflowState
pub mod Broker
pub mod OwnerLease
pub mod Attempt
pub mod Review
pub mod Monitor
pub mod ParallelPlan
pub mod Hypotheses
