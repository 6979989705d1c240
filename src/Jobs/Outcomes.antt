-- ===== src/Jobs/Outcomes.antt =====
-- What a call of `ReliableJobExecutor.execute` does to the data.
use jz_investment_os.Base.{
  ℕ, ◌≡◌, refl, inl, inr, Bool, true, false, Option, none, some, Outcome, ok, err, ◌==◌, leb,
  Bool-cases, arith, ◌⊎◌,
}
use jz_investment_os.Jobs.{
  TaskRun, JobCall, JobExecutionResult, HandlerError, JobError, Database, started, is_succeeded,
  application_error, other_error, after_handler, with_existing, attempt_job, record_failure,
  after_attempt, execute, handler_failed,
}

module _ {D : Type 0} where
  -- What a result says of the data after the call: an error and a reused run leave the data as they
  -- were, a new run leaves what the handler made of them.
  abbrev pub Atomic :
      (D → Outcome HandlerError D) → D → D → Outcome JobError JobExecutionResult → Type 0
  Atomic handler before after (err e) = after ≡ before
  Atomic handler before after (ok x) =
      (x.reused ≡ true) × (after ≡ before) ⊎ (x.reused ≡ false) × (handler before ≡ ok after)

  after_handler-Atomic :
      (c : JobCall) (run : TaskRun) (handler : D → Outcome HandlerError D) (db : Database D)
      (o : Outcome HandlerError D)
      → handler db.data_rows ≡ o
      → let y = after_handler c run o db in Atomic handler db.data_rows y.1.data_rows y.0
  unfolding after_handler
  after_handler-Atomic c run handler db (ok d) h = inr (refl, h)
  after_handler-Atomic c run handler db (err application_error) h = refl
  after_handler-Atomic c run handler db (err (other_error t)) h = refl

  with_existing-Atomic :
      (m : ℕ) (c : JobCall) (handler : D → Outcome HandlerError D) (o : Option TaskRun)
      (db : Database D)
      → let y = with_existing m c handler o db in Atomic handler db.data_rows y.1.data_rows y.0
  unfolding with_existing
  with_existing-Atomic m c handler none db =
      after_handler-Atomic c (started c none) handler db (handler db.data_rows) refl
  with_existing-Atomic m c handler (some r) db = elim (Bool-cases (r.input_hash == c.input_hash)) [
    | inl e ↦ elim (Bool-cases (is_succeeded r.status)) [
      | inl e' ↦ rw e (rw e' (inl (refl, refl)))
      | inr e' ↦ elim (Bool-cases (leb m r.attempt)) [
        | inl e'' ↦ rw e (rw e' (rw e'' refl))
        | inr e'' ↦ rw e (
            rw e' (
              rw e'' (
                after_handler-Atomic c (started c (some r)) handler db (handler db.data_rows)
                  refl)))
      ]
    ]
    | inr e ↦ rw e refl
  ]

  attempt_job-Atomic :
      (m : ℕ) (c : JobCall) (handler : D → Outcome HandlerError D) (l : Bool) (db : Database D)
      → let y = attempt_job m c handler l db in Atomic handler db.data_rows y.1.data_rows y.0
  unfolding attempt_job
  attempt_job-Atomic m c handler l db = elim (Bool-cases c.is_aware) [
    | inl e ↦ elim (Bool-cases l) [
      | inl e' ↦ simp (e, e') (with_existing-Atomic m c handler (db.runs c.idempotency_key) db)
      | inr e' ↦ simp (e, e') refl
    ]
    | inr e ↦ simp e refl
  ]

  after_attempt-Atomic :
      (c : JobCall) (l : Bool) (handler : D → Outcome HandlerError D) (db : Database D)
      (y : Outcome JobError JobExecutionResult × Database D)
      → Atomic handler db.data_rows y.1.data_rows y.0
      → let z = after_attempt c l y in Atomic handler db.data_rows z.1.data_rows z.0
  unfolding after_attempt record_failure
  after_attempt-Atomic c l handler db (ok x, z) h = h
  after_attempt-Atomic c true handler db (err (handler_failed t), z) h = ground (arith, h)
  after_attempt-Atomic c false handler db (err (handler_failed t), z) h = h
  after_attempt-Atomic c l handler db (err _, z) h = h

  -- A call that raises, or that reuses a run, leaves the data as they were; a call that returns a
  -- new run leaves exactly the data that the handler made from them.
  pub execute-Atomic :
      (m : ℕ) (c : JobCall) (handler : D → Outcome HandlerError D) (l l' : Bool) (db : Database D)
      → let y = execute m c handler l l' db in Atomic handler db.data_rows y.1.data_rows y.0
  unfolding execute
  execute-Atomic m c handler l l' db =
      after_attempt-Atomic c l' handler db (attempt_job m c handler l db)
        (attempt_job-Atomic m c handler l db)
