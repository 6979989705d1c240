-- ===== src/Jobs/Once.antt =====
-- `ReliableJobExecutor.execute` after a call that returned.
use jz_investment_os.Base.{
  ℕ, ◌≡◌, ◌∙◌, refl, inl, inr, Bool, true, Option, none, some, Outcome, ok, err, ◌==◌, leb,
  Bool-cases, arith, subst, sym,
}
use jz_investment_os.Jobs.{
  TaskRun, JobCall, JobExecutionResult, HandlerError, JobError, Database, started, succeed,
  is_succeeded, application_error, other_error, after_handler, with_existing, attempt_job,
  after_attempt, execute, handler_failed,
}
use jz_investment_os.Jobs.Success.{put_same, Succeeded, execute-keeps}

module _ {D : Type 0} where
  -- What a call that returned left behind.
  pub record Settled (c : JobCall) (x : JobExecutionResult) (db : Database D) : Type 0 where
    pub run : TaskRun
    pub succeeded : Succeeded c.idempotency_key run db
    pub same_id : run.id ≡ x.task_run_id
    pub same_attempt : run.attempt ≡ x.attempt
    pub same_input : run.input_hash ≡ c.input_hash

  after_handler-Settled :
      (c : JobCall) (run : TaskRun) (o : Outcome HandlerError D) (db : Database D)
      {x : JobExecutionResult}
      → run.input_hash ≡ c.input_hash
      → (after_handler c run o db).0 ≡ ok x
      → Settled c x (after_handler c run o db).1
  unfolding after_handler
  after_handler-Settled c run (ok d) db i h = record {
    run = succeed c run;
    succeeded = record {
      found = put_same c.idempotency_key (succeed c run) db.runs;
      success = refl;
    };
    same_id = cc;
    same_attempt = cc;
    same_input = i;
  }
  after_handler-Settled c run (err application_error) db i h = cc
  after_handler-Settled c run (err (other_error t)) db i h = cc

  with_existing-Settled :
      (m : ℕ) (c : JobCall) (handler : D → Outcome HandlerError D) (o : Option TaskRun)
      (db : Database D) {x : JobExecutionResult}
      → db.runs c.idempotency_key ≡ o
      → (with_existing m c handler o db).0 ≡ ok x
      → Settled c x (with_existing m c handler o db).1
  unfolding with_existing started
  with_existing-Settled m c handler none db f h =
      after_handler-Settled c (started c none) (handler db.data_rows) db refl h
  with_existing-Settled m c handler (some r) db {x} f h =
      elim (Bool-cases (r.input_hash == c.input_hash)) [
        | inl e ↦ elim (Bool-cases (is_succeeded r.status)) [
          | inl e' ↦ rw e (
              rw e' (record {
                run = r;
                succeeded = record { found = f; success = ground (arith, e') };
                same_id = ground arith;
                same_attempt = ground arith;
                same_input = ground (arith, e);
              }))
          | inr e' ↦ elim (Bool-cases (leb m r.attempt)) [
            | inl e'' ↦ ground arith
            | inr e'' ↦ rw e (
                rw e' (
                  rw e'' (
                    after_handler-Settled c (started c (some r)) (handler db.data_rows) db {x = x}
                      refl (ground arith))))
          ]
        ]
        | inr e ↦ ground arith
      ]

  -- With a known zone and a free lock the first transaction looks at the existing run.
  attempt_job-locked :
      (m : ℕ) (c : JobCall) (handler : D → Outcome HandlerError D) (l : Bool) (db : Database D)
      {x : JobExecutionResult}
      → (attempt_job m c handler l db).0 ≡ ok x
      → with_existing m c handler (db.runs c.idempotency_key) db ≡ attempt_job m c handler l db
  unfolding attempt_job
  attempt_job-locked m c handler l db h = ground arith

  attempt_job-Settled :
      (m : ℕ) (c : JobCall) (handler : D → Outcome HandlerError D) (l : Bool) (db : Database D)
      {x : JobExecutionResult}
      → (attempt_job m c handler l db).0 ≡ ok x
      → Settled c x (attempt_job m c handler l db).1
  attempt_job-Settled m c handler l db {x} h =
      subst (λ y. (y.0 ≡ ok x) → Settled c x y.1) (attempt_job-locked m c handler l db {x = x} h)
        (λ e. with_existing-Settled m c handler (db.runs c.idempotency_key) db {x = x} refl e) h

  after_attempt-Settled :
      (c : JobCall) (l : Bool) (y : Outcome JobError JobExecutionResult × Database D)
      {x : JobExecutionResult}
      → ((y.0 ≡ ok x) → Settled c x y.1)
      → (after_attempt c l y).0 ≡ ok x
      → Settled c x (after_attempt c l y).1
  unfolding after_attempt
  after_attempt-Settled c l (ok y, db) k h = k h
  after_attempt-Settled c l (err (handler_failed t), db) k h = cc
  after_attempt-Settled c l (err _, db) k h = cc

  execute-Settled :
      (m : ℕ) (c : JobCall) (handler : D → Outcome HandlerError D) (l l' : Bool) (db : Database D)
      {x : JobExecutionResult}
      → (execute m c handler l l' db).0 ≡ ok x
      → Settled c x (execute m c handler l l' db).1
  unfolding execute
  execute-Settled m c handler l l' db {x} h =
      after_attempt-Settled c l' (attempt_job m c handler l db) {x = x}
        (λ e. attempt_job-Settled m c handler l db {x = x} e) h

  -- Calls one after the other, each with its own arguments, handler and locks.
  pub data Executions (db : Database D) : Database D → Type 0 where
    here : Executions db db
    next :
        {db' : Database D} (m : ℕ) (c : JobCall) (handler : D → Outcome HandlerError D)
        (l l' : Bool)
        → Executions db db'
        → Executions db (execute m c handler l l' db').1

  Executions-Succeeded :
      {key : ℕ} {r : TaskRun} {db db' : Database D}
      → Executions db db'
      → Succeeded key r db
      → Succeeded key r db'
  Executions-Succeeded here s = s
  Executions-Succeeded (next {db'} m c handler l l' e) s =
      execute-keeps _ m c handler l l' db' _ (Executions-Succeeded e s)

  execute_reuses :
      (m : ℕ) (c : JobCall) (handler : D → Outcome HandlerError D) (l' : Bool) (db : Database D)
      (r : TaskRun)
      → c.is_aware ≡ true
      → c.input_hash ≡ r.input_hash
      → Succeeded c.idempotency_key r db
      → execute m c handler true l' db
        ≡ (ok (record { task_run_id = r.id; attempt = r.attempt; reused = true }), db)
  unfolding execute attempt_job with_existing after_attempt
  execute_reuses m c handler l' db r a h s = rw s.found (rw s.success (ground arith))

  -- Once a call returned, and whatever calls follow it one after the other, the next call with its
  -- key and input, a known zone and a free lock returns the same run and attempt as reused and
  -- leaves the database as it is: the handler's work is done once.
  pub job_runs_once :
      (m : ℕ) (c : JobCall) (handler : D → Outcome HandlerError D) (l l' : Bool)
      (db db' : Database D) (x : JobExecutionResult) (n : ℕ) (d : JobCall)
      (handler' : D → Outcome HandlerError D) (k : Bool)
      → (execute m c handler l l' db).0 ≡ ok x
      → Executions (execute m c handler l l' db).1 db'
      → d.idempotency_key ≡ c.idempotency_key
      → d.input_hash ≡ c.input_hash
      → d.is_aware ≡ true
      → execute n d handler' true k db'
        ≡ (ok (record { task_run_id = x.task_run_id; attempt = x.attempt; reused = true }), db')
  job_runs_once m c handler l l' db db' x n d handler' k h e same_key same_hash aware =
      let s = execute-Settled m c handler l l' db {x = x} h in
      let later : Succeeded d.idempotency_key s.run db' =
        subst (λ j. Succeeded j s.run db') (sym same_key) (Executions-Succeeded e s.succeeded) in
      rw (← s.same_id) (
        rw (← s.same_attempt)
          (execute_reuses n d handler' k db' s.run aware (same_hash ∙ sym s.same_input) later))
