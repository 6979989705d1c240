-- ===== src/Jobs.antt =====
-- src/investment_os/infrastructure/persistence/jobs.py, and `TaskRunRepository` of repositories.py:
-- idempotent jobs with a retry limit. A transaction is a function on the whole database; an error
-- that leaves it rolls it back. Keys and hashes are only compared, and are numbers. The handler is
-- a parameter: it changes the data apart from the task runs, or raises. Whether an advisory lock is
-- free is an argument of each transaction.
pub mod Success
pub mod Once
pub mod Retries
pub mod Outcomes
pub mod Limit
pub mod Races
use jz_investment_os.Base.{
  ℕ, suc, Bool, true, false, not, Option, none, some, Outcome, ok, err, leb, ◌==◌, if◌then◌else◌,
}
use jz_investment_os.Base.Text.{Text, codes}
use jz_investment_os.Lifecycle.Transition.{UtcTimestamp}
use jz_investment_os.Budget.Ledger.{put}

pub data TaskStatus : Type 0 where
  running succeeded failed : TaskStatus

-- `error_json`
pub record TaskError : Type 0 where
  pub code : Text
  pub error_type : Text

pub record TaskRun : Type 0 where
  pub id : ℕ
  pub task_name : Text
  pub scheduled_for : UtcTimestamp
  pub status : TaskStatus
  pub attempt : ℕ
  pub input_hash : ℕ
  pub started_at : UtcTimestamp
  pub finished_at : Option UtcTimestamp
  pub error_json : Option TaskError
  pub correlation_id : ℕ

-- The arguments of `execute` apart from the handler, with what the clock and `uuid4()` give.
pub record JobCall : Type 0 where
  pub task_name : Text
  pub scheduled_for : UtcTimestamp
  pub is_aware : Bool
  pub idempotency_key : ℕ
  pub input_hash : ℕ
  pub correlation_id : ℕ
  pub new_id : ℕ
  pub now : UtcTimestamp

pub record JobExecutionResult : Type 0 where
  pub task_run_id : ℕ
  pub attempt : ℕ
  pub reused : Bool

-- What a handler raises: an `ApplicationError`, or any other exception, by the name of its type.
pub data HandlerError : Type 0 where
  application_error : HandlerError
  other_error : Text → HandlerError

pub data JobError : Type 0 where
  naive_schedule job_already_running idempotency_key_conflict : JobError
  job_retry_limit_exhausted handler_application_error : JobError
  handler_failed : Text → JobError

pub record Database (D : Type 0) : Type 0 where
  pub runs : ℕ → Option TaskRun
  pub data_rows : D

-- The record that `start_or_retry` leaves.
unfoldable pub started : JobCall → Option TaskRun → TaskRun
started c none = record {
  id = c.new_id;
  task_name = c.task_name;
  scheduled_for = c.scheduled_for;
  status = TaskStatus.running;
  attempt = 1;
  input_hash = c.input_hash;
  started_at = c.now;
  finished_at = none;
  error_json = none;
  correlation_id = c.correlation_id;
}
started c (some r) = record r {
  status = TaskStatus.running;
  attempt = suc r.attempt;
  input_hash = c.input_hash;
  started_at = c.now;
  finished_at = none;
  error_json = none;
  correlation_id = c.correlation_id;
}

-- `succeed` and `fail`
abbrev pub succeed : JobCall → TaskRun → TaskRun
succeed c r = record r {
  status = TaskStatus.succeeded;
  finished_at = some c.now;
  error_json = none;
}

abbrev pub fail : JobCall → Text → Text → TaskRun → TaskRun
fail c code error_type r = record r {
  status = TaskStatus.failed;
  finished_at = some c.now;
  error_json = some (record { code = code; error_type = error_type });
}

abbrev pub is_succeeded : TaskStatus → Bool
is_succeeded TaskStatus.succeeded = true
is_succeeded _ = false

module _ {D : Type 0} where
  abbrev pub put_run : ℕ → TaskRun → Database D → Database D
  put_run key r db = record db { runs = put key r db.runs }

  -- The end of the first transaction, once the handler was called.
  unfoldable pub after_handler :
      JobCall
      → TaskRun
      → Outcome HandlerError D
      → Database D
      → Outcome JobError JobExecutionResult × Database D
  after_handler c run (ok rows) db = (
    ok (record { task_run_id = run.id; attempt = run.attempt; reused = false }),
    record { runs = put c.idempotency_key (succeed c run) db.runs; data_rows = rows },
  )
  after_handler c run (err application_error) db = (err handler_application_error, db)
  after_handler c run (err (other_error t)) db = (err (handler_failed t), db)

  -- The tests on the existing run, and the call of the handler.
  unfoldable pub with_existing :
      ℕ
      → JobCall
      → (D → Outcome HandlerError D)
      → Option TaskRun
      → Database D
      → Outcome JobError JobExecutionResult × Database D
  with_existing max_attempts c handler none db =
      after_handler c (started c none) (handler db.data_rows) db
  with_existing max_attempts c handler (some r) db =
      if not (r.input_hash == c.input_hash)
      then (err idempotency_key_conflict, db)
      else if is_succeeded r.status
      then (ok (record { task_run_id = r.id; attempt = r.attempt; reused = true }), db)
      else if leb max_attempts r.attempt
      then (
        err job_retry_limit_exhausted,
        put_run c.idempotency_key
            (fail c (codes "JOB_RETRY_LIMIT_EXHAUSTED") (codes "RetryLimitExceeded") r) db,
      )
      else after_handler c (started c (some r)) (handler db.data_rows) db

  -- The first transaction of `execute`.
  unfoldable pub attempt_job :
      ℕ
      → JobCall
      → (D → Outcome HandlerError D)
      → Bool
      → Database D
      → Outcome JobError JobExecutionResult × Database D
  attempt_job max_attempts c handler locked db =
      if not c.is_aware
      then (err naive_schedule, db)
      else if not locked
      then (err job_already_running, db)
      else with_existing max_attempts c handler (db.runs c.idempotency_key) db

  -- `_record_failure`, a transaction of its own.
  unfoldable pub record_failure : JobCall → Text → Bool → Database D → Database D
  record_failure c error_type locked db =
      if locked
      then put_run c.idempotency_key
          (fail c (codes "JOB_HANDLER_FAILED") error_type (started c (db.runs c.idempotency_key)))
          db
      else db

  -- What the `except` clauses do after the first transaction.
  unfoldable pub after_attempt :
      JobCall
      → Bool
      → Outcome JobError JobExecutionResult × Database D
      → Outcome JobError JobExecutionResult × Database D
  after_attempt c locked_again (err (handler_failed t), db) =
      (err (handler_failed t), record_failure c t locked_again db)
  after_attempt c locked_again other = other

  -- `ReliableJobExecutor.execute`, where no other call comes between its two transactions.
  unfoldable pub execute :
      ℕ
      → JobCall
      → (D → Outcome HandlerError D)
      → Bool
      → Bool
      → Database D
      → Outcome JobError JobExecutionResult × Database D
  execute max_attempts c handler locked locked_again db =
      after_attempt c locked_again (attempt_job max_attempts c handler locked db)
