-- ===== src/Lib.antt =====
-- A verification library for memline, a long-term memory store for agents with supersession, review of
-- stale entries and a durable queue.
--
-- The program keeps memories in a vector store behind the mem0 client. A memory may be superseded by
-- others (invalidated), get a deadline (TTL), or be protected from displacement suspicions; none of that
-- touches its text. Judges look at each new entry and leave suspicion pairs in a table of their own, which
-- a session reviews before it says that it is done. Adds and checks may run asynchronously, through a
-- queue in SQLite that the daemon's workers empty. The parts and the files that model them:
--
--   Prelude        shared names: Boolean tests with their meaning (Prelude/Tests), lists (Prelude/Lists),
--                  tables of SQLite as lists of rows (Prelude/Table, Prelude/Order, Prelude/Rows, Prelude/Updates), texts (Prelude/Texts)
--   Dict           Python dictionaries: payloads and arguments
--   Result         operations that may raise, with the program's own errors
--   Memory         the mem0 client, as an interface with laws
--   Queue          src/memline/queue.py, EventQueue: one definition for each method, with its SQL
--   Pairs          src/memline/staleness.py, PairStore: one definition for each method
--   Supersession   src/memline/staleness.py: superseded_ids, _assert_no_cycle, resolve_head
--   Staleness      src/memline/staleness.py: invalidate and revive; below it set_ttl and harvest_expired
--                  (Staleness/Ttl), delete_guard with _delete of src/memline/ops.py (Staleness/Deleting), _update of
--                  src/memline/ops.py (Staleness/Updating), the displacement
--                  protection (Staleness/Protection), search_with_staleness (Staleness/Searching),
--                  run_stale_check (Staleness/Checking)
--   Review         src/memline/review.py: session_review, over the queue and the pair table
--   Ops            src/memline/ops.py: the registry OPS, and handle_request of src/memline/daemon.py
--   Daemon         src/memline/daemon.py: the gate _RWGate, as a step relation on any number of threads;
--                  below it the turns of a worker and the requests of the bridge, with dispatch_queue
--                  of src/memline/ops.py (Daemon/Processing)
--   Llm            src/memline/llm.py: FallbackLLM
--   Bridge         src/memline/bridge.py: BridgeQueue and the client's request (Bridge/Client); each
--                  request as a mailbox with four phases (Bridge/Mailbox), which the table refines
--   Json, Judge    src/memline/judge.py: how the answers of the judges are read, with the regular
--                  expressions as scans (Judge/Scanning)
--   Wiki           src/memline/wiki/batch.py: the plan of the batches (Wiki/Batch), with its partition of the
--                  memories (Wiki/Batch/Partition), and src/memline/wiki/adjudication.py: the findings of a
--                  review (Wiki/Adjudication/Collecting) and the gate on their adjudication; the cursor of
--                  src/memline/wiki/state.py (Wiki/Cursor) and relations of
--                  src/memline/wiki/related.py (Wiki/Related)
--   Disposing      src/memline/cli/stale.py: confirm, ttl and dismiss, and merge (Disposing/Merging), with _load_open_pair,
--                  _require_disposition_authority, execute and _dispose_with_rollback of
--                  src/memline/cli/_support.py. A request to the daemon is executed and answered, never
--                  arrives, or is executed and loses its reply, as its operation's transport says
--                  (Disposing/Requests)
--
-- The operations on memories act on a World, the client's store and the pair table. They use the client
-- only through the record Memory.MemoryClient, whose laws say what the vector store does with a payload
-- update, a new text, a deletion and a row of history, and that a listing without a scope is refused; a concrete
-- client (Staleness/Sample) satisfies them, and the tests run the operations on it.
--
-- Conventions. A method of an object takes the state and returns the new state with its result. A time
-- is a natural number of microseconds and stands for its ISO-8601 text, whose order is that of the
-- times; each operation takes the one time that it reads, and a number of days is given as a span of time,
-- so that it may be a fraction. A confidence is a number of thousandths. The ids that uuid4 draws,
-- sha256, isoformat and the answers of the judges' endpoints are parameters. An SQL table is the list of
-- its rows in the order of insertion, which also orders rows with equal keys. Rows of the history are
-- written and never read. A status, a kind, a verdict or a disposition is a constructor, so a row cannot
-- hold a text that is none of them.
--
-- Loops. Those over a list are structural recursion. The two walks over the supersession graph stop in
-- the source after MAX_CHAIN_DEPTH levels, and the fuel of Supersession.walk and Supersession.resolve is
-- that bound (100, and 101 for resolve_head, whose test is hops <= 100), so nothing is cut off that the
-- source would do. The polling of `review --wait` and that of the bridge's
-- client are lists of observations, of any length. The slices of the batch plan are cut on fuel,
-- the length of the list, and Wiki/Batch/Chunks shows that they are the whole list.
--
-- Not modelled: the calls of the client that fail halfway, a request that the daemon executes after the
-- command has given up (it is a call of its own, after the command's), and the errors that the program swallows
-- (history, annotation, closing of flags), which are taken to succeed; json.loads and Python's floats,
-- which are parameters; the rest of the command line, the relay, sockets, processes, configuration, files, the
-- audit's manifest, the rest of the wiki pipeline, and the migration of old tables.
pub mod Prelude
pub mod Dict
pub mod Result
pub mod Queue
pub mod Pairs
pub mod Supersession
pub mod Memory
pub mod Staleness
pub mod Review
pub mod Ops
pub mod Daemon
pub mod Llm
pub mod Bridge
pub mod Json
pub mod Judge
pub mod Disposing
pub mod Wiki
