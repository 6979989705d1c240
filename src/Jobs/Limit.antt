-- ===== src/Jobs/Limit.antt =====
-- `ReliableJobExecutor.execute` and its retry limit, for a handler that always fails.
use jz_investment_os.Base.{
  ℕ, zero, suc, ◌≤◌, ◌<◌, ◌≡◌, ◌∙◌, refl, inl, inr, Bool, true, false, Option, none, some, Outcome,
  ok, err, leb, Bool-cases, arith, subst, ap, min,
}
use jz_investment_os.Base.Text.{Text, codes}
use jz_investment_os.Jobs.{
  TaskRun, TaskStatus, JobCall, JobExecutionResult, HandlerError, JobError, Database, started, fail,
  put_run, other_error, after_handler, with_existing, attempt_job, record_failure, after_attempt,
  execute, job_retry_limit_exhausted, handler_failed,
}
use jz_investment_os.Jobs.Success.{put_same}
use jz_investment_os.Jobs.Outcomes.{Atomic, execute-Atomic}

-- The run after `n` counted failures of a call.
pub record CountedFailures (id n : ℕ) (c : JobCall) (o : Option TaskRun) : Type 0 where
  pub run : TaskRun
  pub found : o ≡ some run
  pub failed : run.status ≡ TaskStatus.failed
  pub counted : run.attempt ≡ n
  pub same_input : run.input_hash ≡ c.input_hash
  pub same_id : run.id ≡ id

module _ {D : Type 0} where
  failed_first :
      (m : ℕ) (c : JobCall) (t : Text) (db : Database D)
      → c.is_aware ≡ true
      → db.runs c.idempotency_key ≡ none
      → execute m c (λ d. err (other_error t)) true true db ≡ (
        err (handler_failed t),
        put_run c.idempotency_key (fail c (codes "JOB_HANDLER_FAILED") t (started c none)) db,
      )
  unfolding execute attempt_job with_existing after_attempt after_handler record_failure
  failed_first m c t db a e = rw e (ground arith)

  failed_again :
      (m id n : ℕ) (c : JobCall) (t : Text) (db : Database D)
      → c.is_aware ≡ true
      → n < m
      → (k : CountedFailures id n c (db.runs c.idempotency_key))
      → execute m c (λ d. err (other_error t)) true true db ≡ (
        err (handler_failed t),
        put_run c.idempotency_key
            (fail c (codes "JOB_HANDLER_FAILED") t (started c (some k.run)))
            db,
      )
  unfolding execute attempt_job with_existing after_attempt after_handler record_failure
  failed_again m id n c t db a h k =
      rw k.found (rw k.failed (ground (arith, k.counted, k.same_input)))

  pub called_again :
      (m id n : ℕ) (c : JobCall) (handler : D → Outcome HandlerError D) (l : Bool) (db : Database D)
      (d : D)
      → c.is_aware ≡ true
      → n < m
      → (k : CountedFailures id n c (db.runs c.idempotency_key)) → handler db.data_rows ≡ ok d
      → let y = execute m c handler true l db in
        (y.0 ≡ ok (record { task_run_id = id; attempt = suc n; reused = false }))
        × (y.1.data_rows ≡ d)
  unfolding execute attempt_job with_existing after_attempt after_handler record_failure started
  called_again m id n c handler l db d a h k g =
      rw k.found (rw k.failed (rw g (ground (arith, k.counted, k.same_input, k.same_id))))

  exhausted :
      (m id n : ℕ) (c : JobCall) (handler : D → Outcome HandlerError D) (db : Database D)
      → c.is_aware ≡ true
      → m ≤ n
      → (k : CountedFailures id n c (db.runs c.idempotency_key))
      → execute m c handler true true db ≡ (
        err job_retry_limit_exhausted,
        put_run c.idempotency_key
            (fail c (codes "JOB_RETRY_LIMIT_EXHAUSTED") (codes "RetryLimitExceeded") k.run)
            db,
      )
  unfolding execute attempt_job with_existing after_attempt
  exhausted m id n c handler db a h k =
      rw k.found (rw k.failed (ground (arith, k.counted, k.same_input)))

  called_first :
      (m : ℕ) (c : JobCall) (handler : D → Outcome HandlerError D) (db : Database D) (d : D)
      → c.is_aware ≡ true
      → db.runs c.idempotency_key ≡ none
      → handler db.data_rows ≡ ok d
      → let y = execute m c handler true true db in
        (y.0 ≡ ok (record { task_run_id = c.new_id; attempt = 1; reused = false }))
        × (y.1.data_rows ≡ d)
  unfolding execute attempt_job with_existing after_attempt after_handler started
  called_first m c handler db d a e g = rw e (rw g (ground arith))

  -- The same call `n` times, with a handler that always raises an exception whose type is not
  -- `ApplicationError`, and with free locks.
  unfoldable pub failing : ℕ → JobCall → Text → ℕ → Database D → Database D
  failing m c t zero db = db
  failing m c t (suc n) db =
      (execute m c (λ d. err (other_error t)) true true (failing m c t n db)).1

  -- A handler that raises leaves the data whatever the result is.
  kept :
      (t : Text) (before after : D) (o : Outcome JobError JobExecutionResult)
      → Atomic (λ d. err (other_error t)) before after o
      → after ≡ before
  kept t before after (err e) h = h
  kept t before after (ok x) (inl h) = h.1
  kept t before after (ok x) (inr h) = cc (h.1)

  failing-data_rows :
      (m : ℕ) (c : JobCall) (t : Text) (n : ℕ) (db : Database D)
      → (failing m c t n db).data_rows ≡ db.data_rows
  unfolding failing
  failing-data_rows m c t zero db = refl
  failing-data_rows m c t (suc n) db =
      kept t _ _ _ (execute-Atomic m c (λ d. err (other_error t)) true true (failing m c t n db))
      ∙ failing-data_rows m c t n db

  counted_first :
      (m : ℕ) (c : JobCall) (t : Text) (db : Database D)
      → c.is_aware ≡ true
      → db.runs c.idempotency_key ≡ none
      → CountedFailures c.new_id 1 c
          ((execute m c (λ d. err (other_error t)) true true db).1.runs c.idempotency_key)
  unfolding started
  counted_first m c t db a e = rw (failed_first m c t db a e) (record {
    run = fail c (codes "JOB_HANDLER_FAILED") t (started c none);
    found = put_same c.idempotency_key _ db.runs;
    failed = refl;
    counted = refl;
    same_input = refl;
    same_id = refl;
  })

  counted_again :
      (m id n : ℕ) (c : JobCall) (t : Text) (db : Database D)
      → c.is_aware ≡ true
      → CountedFailures id n c (db.runs c.idempotency_key)
      → n ≤ m
      → CountedFailures id
          (min (suc n) m)
          c
          ((execute m c (λ d. err (other_error t)) true true db).1.runs c.idempotency_key)
  unfolding started
  counted_again m id n c t db a k h = elim (Bool-cases (leb m n)) [
    | inl e ↦
        rw (exhausted m id n c (λ d. err (other_error t)) db a (ground (arith, e)) k) (record {
          run = fail c (codes "JOB_RETRY_LIMIT_EXHAUSTED") (codes "RetryLimitExceeded") k.run;
          found = put_same c.idempotency_key _ db.runs;
          failed = refl;
          counted = ground (arith, k.counted, e, h);
          same_input = k.same_input;
          same_id = k.same_id;
        })
    | inr e ↦ rw (failed_again m id n c t db a (ground (arith, e)) k) (record {
      run = fail c (codes "JOB_HANDLER_FAILED") t (started c (some k.run));
      found = put_same c.idempotency_key _ db.runs;
      failed = refl;
      counted = ground (arith, k.counted, e, h);
      same_input = refl;
      same_id = k.same_id;
    })
  ]

  failing-CountedFailures :
      (m : ℕ) (c : JobCall) (t : Text) (n : ℕ) (db : Database D)
      → 1 ≤ m
      → c.is_aware ≡ true
      → db.runs c.idempotency_key ≡ none
      → CountedFailures c.new_id
          (min (suc n) m)
          c
          ((failing m c t (suc n) db).runs c.idempotency_key)
  unfolding failing
  failing-CountedFailures m c t zero db p a e =
      subst (λ j. CountedFailures c.new_id j c ((failing m c t 1 db).runs c.idempotency_key))
        (omega arith) (counted_first m c t db a e)
  failing-CountedFailures m c t (suc n) db p a e =
      subst
        (λ j.
          CountedFailures c.new_id j c ((failing m c t (suc (suc n)) db).runs c.idempotency_key))
        (omega arith)
        (counted_again m c.new_id (min (suc n) m) c t (failing m c t (suc n) db) a
          (failing-CountedFailures m c t n db p a e) (omega arith))

  -- With a limit of at least one, a known zone and free locks, and no run of the key before: after
  -- `n` failures of the call below the limit, its next attempt still runs the handler, and one that
  -- succeeds returns as the attempt after them and leaves its data. From the limit on, the call is
  -- refused and the data stay as they were before the failures, for a handler of which nothing is
  -- assumed.
  pub retry_limit :
      (m : ℕ) (c : JobCall) (t : Text) (n : ℕ) (db : Database D)
      (handler : D → Outcome HandlerError D) (d : D) (any_handler : D → Outcome HandlerError D)
      → 1 ≤ m
      → c.is_aware ≡ true
      → db.runs c.idempotency_key ≡ none
      → handler db.data_rows ≡ ok d
      → let next = execute m c handler true true (failing m c t n db) in
        let refused = execute m c any_handler true true (failing m c t n db) in
        (n < m
          → (next.0 ≡ ok (record { task_run_id = c.new_id; attempt = suc n; reused = false }))
            × (next.1.data_rows ≡ d))
        × (m ≤ n
            → (refused.0 ≡ err job_retry_limit_exhausted) × (refused.1.data_rows ≡ db.data_rows))
  unfolding failing
  retry_limit m c t zero db handler d any_handler p a e g =
      (λ h. called_first m c handler db d a e g, λ h. absurd (omega arith))
  retry_limit m c t (suc n) db handler d any_handler p a e g =
      let k = failing-CountedFailures m c t n db p a e in
      (
        λ h.
            let again =
              called_again m c.new_id (min (suc n) m) c handler true (failing m c t (suc n) db) d a
                (omega arith) k (ap handler (failing-data_rows m c t (suc n) db) ∙ g) in
            (
              again.0
                  ∙ ap
                      (λ j. ok (record { task_run_id = c.new_id; attempt = suc j; reused = false }))
                      (omega arith),
              again.1,
            ),
        λ h.
            let stop =
              exhausted m c.new_id (min (suc n) m) c any_handler (failing m c t (suc n) db) a
                (omega arith) k in
            (ap (λ y. y.0) stop, ap (λ y. y.1.data_rows) stop ∙ failing-data_rows m c t (suc n) db),
      )
