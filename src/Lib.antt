-- ===== src/Lib.antt =====
-- Counterparty: a service that checks sellers before a purchase (trust snapshot), verifies what they
-- deliver, keeps their reputation, and recommends the seller to buy from (best execution). Everything it
-- does is written to an audit chain of hashes.
--
-- The parts, and the files that model them (paths of the code are from the repository's root):
--
--   counterparty/storage.py       Tables: the two evidence tables with their constraints; Audit: the
--                                 audit chain (`_append_audit_tx`, `verify_audit`, `audit_head`,
--                                 `get_audit_event`, `audit_events`); Store: transactions and the methods
--                                 of `CounterpartyStore` that write; Store/Query: those that read
--                                 reputation; Store/Order and Store/Ledger: the tables without the order of
--                                 their rows, and the ledger of deliveries that they implement
--   counterparty/reputation.py    Reputation: the class `BayesianReputation`
--   counterparty/verification.py  Probes, Assertions, Pointer: the probes, and the resolution of paths;
--                                 Verification: `aggregate`
--   counterparty/routing.py       Routing: `utility` and `rank`
--   counterparty/models.py        Models: states, probe results, requests and candidate scores; Requests: how
--                                 a body of JSON becomes a request, with the lengths, ranges and validators
--   counterparty/app.py           Delivery: `verify_delivery`; Canaries: `probe_observation`;
--                                 TrustSnapshot: `trust_snapshot`; BestExecution: `best_execution`;
--                                 Ingress: the middleware `request_limits`, `health` and the two audit
--                                 endpoints; AgentCard: `agent_card` and the list of services
--   scripts/arena_preflight.py    Environment: environment variables and the text operations on them;
--                                 Preflight: the local checks, the checks of the deployed documents, the
--                                 report and the exit status
--   scripts/arena_host.py         Polling: `wait_health`; Host: `validate_environment`, the commands and
--                                 `main`, as the list of its effects and its outcome
--   scripts/arena_soak.py         Soak: the loop over segments, the report and the exit status
--   scripts/stress_test.py        Stress: the replay storm
--   scripts/arena_rehearsal.py,   Driver: their requests and the loop of verified deliveries; Rehearsal: the
--   scripts/arena_demo.py         rehearsal, its checks and report; Demo: the demonstration
--
-- Prelude holds the shared helpers, Sorting the insertion sort that stands for Python's `sorted` and for
-- `ORDER BY`, Json the values of Python's `json` module with dictionaries in insertion order, and Floats
-- the arithmetic of Python's `float`. Examples has concrete instances of the interfaces, on which the
-- tests and the examples of the theorems run.
--
-- State and operations. The database is a record of three tables, each a list of rows in the order of
-- insertion. A method is a function of its arguments, of the stamps that `uuid.uuid4()` and
-- `time.time_ns()` gave it, and of the database; it returns its result beside the new database. A
-- transaction keeps the writes of its body or none of them. `BEGIN IMMEDIATE` lets one writer in at a
-- time, so a run of the service is a list of calls, each of which sees what the ones before it left.
-- Exceptions are values: `ValueError` and `IntegrityError` in a result type, the others as `none`.
--
-- Numbers. Python's integers do not overflow and are natural numbers or signed integers here. Floats are
-- an interface (Floats) with laws that IEEE 754 double arithmetic satisfies on finite values: monotone
-- rounding, exact small integers. A body with a NaN or an Infinity is outside of them, and `sum` adds from
-- the left, as up to Python 3.11. The theorems that need a count to be exact bound it by 10 ** 12 (10 **
-- 11 rows in a table), far above what a table holds. Fixed-point numbers of twenty decimal places
-- (Examples/FixedPoint) are proved to satisfy the laws.
--
-- Parameters. `json.dumps`, `json.loads` and SHA-256 are the interface `Codec` (Json): reading back what
-- was written gives the value, and nothing is assumed of the hash, so a theorem that could fail by a
-- collision says so. The package jsonschema and the printing of values are parameters of the probes
-- without any law, as is what pydantic takes for a text, an integer, a float or an url (Requests). The
-- scripts take what they see of the world as functions: the answers of the network and of the commands
-- they run, the clock, and Python's tables of letters, digits and lower case.
--
-- Recursion is on the structure of lists and values, except in two loops that run against a clock and in the
-- printing of an integer, which take fuel. `wait_health` sleeps 250 ms in each turn, so the timeout in
-- milliseconds by 250, and two, is enough. The soak takes a turn for each segment and one to end, or, in a run
-- by the wall clock, a turn for each millisecond and two. An integer is printed with one more than itself. All
-- of it is proved to be enough. The loop of verified deliveries has the bound of the scripts, 32 turns.
--
-- Flywheel puts the handlers one after the other.
--
-- Not modelled: input and output (SQLite connections, HTTP, files, processes, signals), the wiring of
-- FastAPI, the reasons and evidence texts of the probes, schemas on which jsonschema raises an exception, the checklist that the preflight prints for people
-- and the story that the demonstration prints, the load that the soak and the stress test send, and the
-- figures of the stress test's report. The TypeScript adapters under sharedos/ are outside the Python service.
pub mod Prelude
pub mod Sorting
pub mod Floats
pub mod Json
pub mod Tables
pub mod Audit
pub mod Reputation
pub mod Store
pub mod Models
pub mod Requests
pub mod Verification
pub mod Routing
pub mod BestExecution
pub mod TrustSnapshot
pub mod Probes
pub mod Pointer
pub mod Assertions
pub mod Delivery
pub mod Canaries
pub mod Flywheel
pub mod Ingress
pub mod Environment
pub mod AgentCard
pub mod Preflight
pub mod Polling
pub mod Host
pub mod Soak
pub mod Demo
pub mod Driver
pub mod Rehearsal
pub mod Stress
pub mod Examples
