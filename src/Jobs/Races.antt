-- ===== src/Jobs/Races.antt =====
-- Another worker between the two transactions of one `execute`: the first has released its lock
-- when `_record_failure` takes it again.
use jz_investment_os.Base.{
  ℕ, suc, ◌<◌, ◌≡◌, refl, sym, ap, ◌∙◌, Bool, true, false, Outcome, ok, Option, some,
}
use jz_investment_os.Base.Text.{Text, codes}
use jz_investment_os.Budget.Ledger.{put}
use jz_investment_os.Jobs.{
  TaskRun, JobCall, HandlerError, Database, started, fail, record_failure, execute,
}
use jz_investment_os.Jobs.Limit.{CountedFailures, called_again}
use jz_investment_os.Jobs.Success.{Succeeded, put_same}

module _ {D : Type 0} where
  -- A late failure recorded over a run.
  recorded_over :
      (c late : JobCall) (t : Text) (db : Database D) (r : TaskRun)
      → Succeeded c.idempotency_key r db
      → late.idempotency_key ≡ c.idempotency_key
      → late.input_hash ≡ c.input_hash
      → CountedFailures r.id
          (suc r.attempt)
          c
          ((record_failure late t true db).runs c.idempotency_key)
  unfolding record_failure started
  recorded_over c late t db r s same_key same_hash =
      let over : Option TaskRun → TaskRun =
        λ o. fail late (codes "JOB_HANDLER_FAILED") t (started late o) in
      let v = over (db.runs late.idempotency_key) in
      let run = started late (some r) in
      record {
        run = fail late (codes "JOB_HANDLER_FAILED") t run;
        found =
            ap (λ k. put late.idempotency_key v db.runs k) (sym same_key)
            ∙ put_same late.idempotency_key v db.runs
            ∙ ap (λ o. some (over o)) (ap db.runs same_key ∙ s.found);
        failed = refl;
        counted = refl;
        same_input = same_hash;
        same_id = refl;
      }

  -- If the run of a key succeeded with an attempt below the limit less one, and a worker whose own
  -- attempt failed earlier then records its failure, the next call with that key and input, a known
  -- zone and free lock runs its handler, and if that succeeds keeps what the handler did, as a new
  -- attempt two above the one that had succeeded.
  pub late_failure_reruns :
      (m : ℕ) (c late : JobCall) (t : Text) (handler : D → Outcome HandlerError D) (l : Bool)
      (db : Database D) (r : TaskRun) (d : D)
      → Succeeded c.idempotency_key r db
      → late.idempotency_key ≡ c.idempotency_key
      → late.input_hash ≡ c.input_hash
      → c.is_aware ≡ true
      → suc r.attempt < m
      → handler db.data_rows ≡ ok d
      → let y = execute m c handler true l (record_failure late t true db) in
        (y.0 ≡ ok (record { task_run_id = r.id; attempt = suc (suc r.attempt); reused = false }))
        × (y.1.data_rows ≡ d)
  unfolding record_failure
  late_failure_reruns m c late t handler l db r d s same_key same_hash aware below made =
      called_again m r.id (suc r.attempt) c handler l (record_failure late t true db) d aware below
        (recorded_over c late t db r s same_key same_hash) made
