-- ===== src/Jobs/Success.antt =====
-- Runs that succeeded, and what a call of `ReliableJobExecutor.execute` does to them.
use jz_investment_os.Base.{
  ℕ, ◌≡◌, ◌∙◌, refl, inl, inr, Bool, true, false, Option, none, some, Outcome, ok, err, ◌==◌,
  Bool-cases, arith, subst, sym,
}
use jz_investment_os.Budget.Ledger.{put}
use jz_investment_os.Jobs.{
  TaskRun, TaskStatus, JobCall, JobExecutionResult, HandlerError, JobError, Database, started,
  application_error, other_error, after_handler, with_existing, attempt_job, record_failure,
  after_attempt, execute, handler_failed,
}

pub put_same : {A : Type 0} (k : ℕ) (v : A) (t : ℕ → Option A) → put k v t k ≡ some v
put_same k v t = ground arith

pub put_other :
    {A : Type 0} (j k : ℕ) (v : A) (t : ℕ → Option A) → (j == k) ≡ false → put k v t j ≡ t j
put_other j k v t h = ground arith

module _ {D : Type 0} where
  -- The run of a key succeeded.
  pub record Succeeded (key : ℕ) (r : TaskRun) (db : Database D) : Type 0 where
    pub found : db.runs key ≡ some r
    pub success : r.status ≡ TaskStatus.succeeded

  -- A call for another key.
  after_handler-other :
      (key : ℕ) (c : JobCall) (run : TaskRun) (o : Outcome HandlerError D) (db : Database D)
      → (key == c.idempotency_key) ≡ false
      → (after_handler c run o db).1.runs key ≡ db.runs key
  unfolding after_handler
  after_handler-other key c run (ok d) db h = rw h refl
  after_handler-other key c run (err application_error) db h = refl
  after_handler-other key c run (err (other_error t)) db h = refl

  with_existing-other :
      (key m : ℕ) (c : JobCall) (handler : D → Outcome HandlerError D) (o : Option TaskRun)
      (db : Database D)
      → (key == c.idempotency_key) ≡ false
      → (with_existing m c handler o db).1.runs key ≡ db.runs key
  unfolding with_existing
  with_existing-other key m c handler none db h =
      after_handler-other key c (started c none) (handler db.data_rows) db h
  with_existing-other key m c handler (some r) db h =
      ground (arith, after_handler-other key c (started c (some r)) (handler db.data_rows) db h)

  attempt_job-other :
      (key m : ℕ) (c : JobCall) (handler : D → Outcome HandlerError D) (l : Bool) (db : Database D)
      → (key == c.idempotency_key) ≡ false
      → (attempt_job m c handler l db).1.runs key ≡ db.runs key
  unfolding attempt_job
  attempt_job-other key m c handler l db h =
      ground (arith, with_existing-other key m c handler (db.runs c.idempotency_key) db h)

  after_attempt-other :
      (key : ℕ) (c : JobCall) (l : Bool) (x : Outcome JobError JobExecutionResult × Database D)
      → (key == c.idempotency_key) ≡ false
      → (after_attempt c l x).1.runs key ≡ x.1.runs key
  unfolding after_attempt record_failure
  after_attempt-other key c l (ok x, db) h = refl
  after_attempt-other key c true (err (handler_failed t), db) h = rw h refl
  after_attempt-other key c false (err (handler_failed t), db) h = refl
  after_attempt-other key c l (err _, db) h = refl

  -- A call for the key of a run that succeeded changes nothing.
  execute-same :
      (m : ℕ) (c : JobCall) (handler : D → Outcome HandlerError D) (l l' : Bool) (db : Database D)
      (r : TaskRun)
      → Succeeded c.idempotency_key r db
      → (execute m c handler l l' db).1 ≡ db
  unfolding execute attempt_job with_existing after_attempt
  execute-same m c handler l l' db r s = rw s.found (rw s.success (ground arith))

  pub execute-keeps :
      (key m : ℕ) (c : JobCall) (handler : D → Outcome HandlerError D) (l l' : Bool)
      (db : Database D) (r : TaskRun)
      → Succeeded key r db
      → Succeeded key r (execute m c handler l l' db).1
  unfolding execute
  execute-keeps key m c handler l l' db r s = elim (Bool-cases (key == c.idempotency_key)) [
    | inl e ↦
        let same : key ≡ c.idempotency_key = ground (arith, e) in
        subst (Succeeded key r)
          (sym (execute-same m c handler l l' db r (subst (λ k. Succeeded k r db) same s))) s
    | inr e ↦ record {
      found =
          after_attempt-other key c l' (attempt_job m c handler l db) e
          ∙ attempt_job-other key m c handler l db e
          ∙ s.found;
      success = s.success;
    }
  ]
