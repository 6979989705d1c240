-- ===== src/Lib.antt =====
-- A verification library for the personal investment operating system (a Python service).
--
-- The program turns evidence into investment Decisions that a human approves. Policies bound what
-- may be proposed, a risk assessment and the portfolio's limits decide whether exposure may grow,
-- the CIO aggregation recommends an action, four state machines guard every change of state, and
-- approvals and execution receipts record what was decided and done. What is believed of an
-- instrument is a Thesis, kept as a history of versions that a writer appends to. Around this
-- core, calls of language models are paid from a token and cost budget, and jobs are planned for
-- the sessions of a calendar and run under a retry limit.
--
-- Which file models which part (a module `A.B` is A/B.antt):
--   Enums      src/investment_os/domain/enums.py, and the error codes of domain/errors.py
--   Values     src/investment_os/domain/values.py: `Weight`, `Quantity`, `UtcTimestamp`,
--              `PositionBuckets`; a `__post_init__` is a function that returns the value or an error
--   Lifecycle  src/investment_os/domain/state_machines.py: Transition has `_start_transition` and
--              `_guard`; Decision, Thesis, Instrument and Strategy one machine each, with its table,
--              its guards and `transition_*`; their Rules state the workflow as a relation, and
--              Machine runs a machine over a sequence of requests
--   Approval   src/investment_os/domain/approval.py and application/approval_gate.py, whose context
--              is an argument of the Decision machine; Execution is domain/execution.py
--   Cio        src/investment_os/application/decision_engine.py
--   Risk       src/investment_os/domain/risk.py
--   Policy     src/investment_os/domain/policy.py
--   Portfolio  src/investment_os/domain/portfolio.py
--   Budget     Ledger is the store of src/investment_os/infrastructure/llm_budget.py, Service is
--              src/investment_os/application/llm_budget.py, which calls it
--   Jobs       src/investment_os/infrastructure/persistence/jobs.py, and `TaskRunRepository` of
--              persistence/repositories.py
--   Journal    src/investment_os/domain/decision.py: the aggregate of the Decision Journal
--   Thesis     src/investment_os/domain/thesis.py; Payload and Diff are
--              src/investment_os/application/thesis.py; Stored and Writer are the record and the
--              `write` of src/investment_os/infrastructure/thesis_engine.py, on the tables of Store
--              (persistence/repositories.py); Monitor is `evaluate_invalidation`, Reader
--              the readers and the monitor's write; the rest has proofs
--   Schedule   src/investment_os/application/schedule.py; a date is the number of its day, and the
--              fields of dates and the conversions of `zoneinfo` are a `Clock`, a parameter
--   Freshness  `derive_display_freshness` of src/investment_os/application/evidence.py
--   Base       helpers: Boolean tests, results, texts, sorting, decimals
--   Tests      concrete data and runs
--
-- How the code is modelled. A call that may raise returns an `Outcome`: `ok` or `err` with the error
-- code; messages and details are left out. A `Decimal` is an integer number of quanta of 10⁻²⁸;
-- sums and comparisons are exact, as in the default context for numbers of up to 28 digits. A
-- Python `int` is a signed number. A `str` is the list of its code points, and `strip` follows the
-- whitespace of `str.isspace`. UUIDs, dates, keys and hashes are numbers, since they are only
-- compared; a `UtcTimestamp` is a number of microseconds. A database transaction is a function on
-- the whole store, and a raised error leaves the store as it was; row locks and advisory locks make
-- transactions sequential, and a lock that is not free is an argument. The handler of a job is a
-- parameter. The reads of a Thesis write make a plan and its inserts carry it out; the texts of UUIDs,
-- `isoformat`, `str` of a value that is no string, and the SHA-256 digest of a JSON value are a
-- `Codec`, and digits, `Decimal(text)` and `casefold` are `Numerals`, both parameters. All
-- functions are structurally recursive: there is no fuel.
--
-- Not modelled: the content hashes of other records (SHA-256 of JSON texts), HTTP routes and
-- schemas, the other repositories, position sizing, the committee, the rest of evidence, the
-- schedulers, the portfolio import, the LLM gateway and its provider, and configuration.
pub mod Base
pub mod Enums
pub mod Values
pub mod Lifecycle
pub mod Approval
pub mod Cio
pub mod Risk
pub mod Policy
pub mod Portfolio
pub mod Budget
pub mod Jobs
pub mod Freshness
pub mod Journal
pub mod Thesis
pub mod Schedule
pub mod Tests
