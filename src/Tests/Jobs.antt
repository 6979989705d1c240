-- ===== src/Tests/Jobs.antt =====
-- Calls of a job whose data are a number that the handler counts up.
use jz_investment_os.Base.{
  ℕ, suc, ◌≤◌, ◌<◌, ◌≡◌, refl, true, false, none, some, Outcome, ok, err, arith,
}
use jz_investment_os.Base.Text.{codes}
use jz_investment_os.Budget.Ledger.{put}
use jz_investment_os.Jobs.{
  TaskRun, TaskStatus, JobCall, JobExecutionResult, HandlerError, Database, started, after_handler,
  with_existing, attempt_job, record_failure, after_attempt, execute, job_retry_limit_exhausted,
  other_error,
}
use jz_investment_os.Jobs.Success.{Succeeded}
use jz_investment_os.Jobs.Once.{here, job_runs_once}
use jz_investment_os.Jobs.Once
use jz_investment_os.Jobs.Outcomes.{Atomic, execute-Atomic}
use jz_investment_os.Jobs.Retries.{Bounded, execute-Bounded}
use jz_investment_os.Jobs.Limit.{failing, retry_limit}
use jz_investment_os.Jobs.Races.{late_failure_reruns}

abbrev call : JobCall
call = record {
  task_name = codes "daily";
  scheduled_for = 100;
  is_aware = true;
  idempotency_key = 1;
  input_hash = 55;
  correlation_id = 3;
  new_id = 9;
  now = 101;
}

abbrev empty : Database ℕ
empty = record { runs = λ k. none; data_rows = 0 }

abbrev count_up : ℕ → Outcome HandlerError ℕ
count_up n = ok (suc n)

abbrev give_up : ℕ → Outcome HandlerError ℕ
give_up n = err (other_error (codes "OSError"))

abbrev first_result : JobExecutionResult
first_result = record { task_run_id = 9; attempt = 1; reused = false }

first_returns : (execute 3 call count_up true true empty).0 ≡ ok first_result
unfolding execute attempt_job with_existing after_handler after_attempt started
first_returns = refl

failed_attempt_test : (execute 3 call give_up true true empty).1.data_rows ≡ 0
unfolding execute attempt_job with_existing after_handler after_attempt started record_failure
failed_attempt_test = refl

abbrev after_first : Database ℕ
after_first = (execute 3 call count_up true true empty).1

job_runs_once_example :
    execute 3 call count_up true true (execute 3 call give_up true true after_first).1 ≡ (
      ok (record { task_run_id = 9; attempt = 1; reused = true }),
      (execute 3 call give_up true true after_first).1,
    )
job_runs_once_example =
    job_runs_once 3 call count_up true true empty (execute 3 call give_up true true after_first).1
      first_result 3 call count_up true first_returns
      (Once.next {db' = after_first} 3 call give_up true true here) refl refl refl

execute-Bounded_example : Bounded 3 (execute 3 call give_up true true empty).1
execute-Bounded_example = execute-Bounded 3 call give_up true true empty (omega arith) (λ k. tt)

execute-Atomic_example :
    let y = execute 3 call count_up true true empty in Atomic count_up 0 y.1.data_rows y.0
execute-Atomic_example = execute-Atomic 3 call count_up true true empty

retry_limit_example :
    let next = execute 3 call count_up true true (failing 3 call (codes "OSError") 2 empty) in
    let refused = execute 3 call give_up true true (failing 3 call (codes "OSError") 2 empty) in
    (2 < 3
      → (next.0 ≡ ok (record { task_run_id = 9; attempt = 3; reused = false }))
        × (next.1.data_rows ≡ 1))
    × (3 ≤ 2 → (refused.0 ≡ err job_retry_limit_exhausted) × (refused.1.data_rows ≡ 0))
retry_limit_example =
    retry_limit 3 call (codes "OSError") 2 empty count_up 1 give_up (omega arith) refl refl refl

abbrev done : TaskRun
done = record {
  id = 9;
  task_name = codes "daily";
  scheduled_for = 100;
  status = TaskStatus.succeeded;
  attempt = 1;
  input_hash = 55;
  started_at = 101;
  finished_at = some 101;
  error_json = none;
  correlation_id = 3;
}

abbrev finished : Database ℕ
finished = record { runs = put 1 done (λ k. none); data_rows = 1 }

done-Succeeded : Succeeded 1 done finished
done-Succeeded = record { found = refl; success = refl }

late_failure_reruns_example :
    let y =
      execute 3 call count_up true true (record_failure call (codes "OSError") true finished) in
    (y.0 ≡ ok (record { task_run_id = 9; attempt = 3; reused = false })) × (y.1.data_rows ≡ 2)
late_failure_reruns_example =
    late_failure_reruns 3 call call (codes "OSError") count_up true finished done 2 done-Succeeded
      refl refl refl (omega arith) refl
