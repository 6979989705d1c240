-- ===== src/Jobs/Retries.antt =====
-- How often `ReliableJobExecutor.execute` starts a run.
use jz_investment_os.Base.{
  ℕ, ◌≤◌, ◌≡◌, refl, inl, inr, Bool, true, false, Option, none, some, Outcome, ok, err, ◌==◌, leb,
  Bool-cases, arith, subst, sym, ap,
}
use jz_investment_os.Base.Text.{Text}
use jz_investment_os.Budget.Ledger.{put}
use jz_investment_os.Jobs.{
  TaskRun, JobCall, JobExecutionResult, HandlerError, JobError, Database, started, succeed,
  is_succeeded, application_error, other_error, after_handler, with_existing, attempt_job,
  record_failure, after_attempt, execute, handler_failed,
}

abbrev pub AttemptsAtMost : ℕ → Option TaskRun → Type 0
AttemptsAtMost m none = Unit {0}
AttemptsAtMost m (some r) = r.attempt ≤ m

put_bounded :
    (m k : ℕ) (v : TaskRun) (table : ℕ → Option TaskRun)
    → ((j : ℕ) → AttemptsAtMost m (table j))
    → v.attempt ≤ m
    → (j : ℕ) → AttemptsAtMost m (put k v table j)
put_bounded m k v table h new j = elim (Bool-cases (j == k)) [
  | inl e ↦ rw e new
  | inr e ↦ rw e (h j)
]

module _ {D : Type 0} where
  -- No run was started more than `m` times.
  abbrev pub Bounded : ℕ → Database D → Type 0
  Bounded m db = (k : ℕ) → AttemptsAtMost m (db.runs k)

  after_handler-Bounded :
      (m : ℕ) (c : JobCall) (run : TaskRun) (o : Outcome HandlerError D) (db : Database D)
      → Bounded m db
      → run.attempt ≤ m
      → Bounded m (after_handler c run o db).1
  unfolding after_handler
  after_handler-Bounded m c run (ok d) db b h =
      put_bounded m c.idempotency_key (succeed c run) db.runs b h
  after_handler-Bounded m c run (err application_error) db b h = b
  after_handler-Bounded m c run (err (other_error t)) db b h = b

  -- A first transaction that ends in a failure of the handler changed nothing, and the run can be
  -- started once more.
  abbrev FailedOrBounded :
      ℕ → JobCall → Database D → Outcome JobError JobExecutionResult × Database D → Type 0
  FailedOrBounded m c db y =
      Bounded m y.1
      × ((t : Text)
          → y.0 ≡ err (handler_failed t)
          → (y.1 ≡ db) × ((started c (db.runs c.idempotency_key)).attempt ≤ m))

  after_handler-Failed :
      (m : ℕ) (c : JobCall) (run : TaskRun) (o : Outcome HandlerError D) (db : Database D)
      → Bounded m db
      → run ≡ started c (db.runs c.idempotency_key)
      → run.attempt ≤ m
      → FailedOrBounded m c db (after_handler c run o db)
  unfolding after_handler
  after_handler-Failed m c run (ok d) db b e h =
      (after_handler-Bounded m c run (ok d) db b h, λ t f. cc)
  after_handler-Failed m c run (err application_error) db b e h = (b, λ t f. cc)
  after_handler-Failed m c run (err (other_error u)) db b e h = (b, λ t f. (refl, rw (← e) h))

  with_existing-Failed :
      (m : ℕ) (c : JobCall) (handler : D → Outcome HandlerError D) (o : Option TaskRun)
      (db : Database D)
      → 1 ≤ m
      → Bounded m db
      → db.runs c.idempotency_key ≡ o
      → FailedOrBounded m c db (with_existing m c handler o db)
  unfolding with_existing started
  with_existing-Failed m c handler none db p b f =
      after_handler-Failed m c (started c none) (handler db.data_rows) db b (ap (started c) (sym f))
        p
  with_existing-Failed m c handler (some r) db p b f =
      elim (Bool-cases (r.input_hash == c.input_hash)) [
        | inl e ↦ elim (Bool-cases (is_succeeded r.status)) [
          | inl e' ↦ rw e (rw e' (b, λ t g. cc))
          | inr e' ↦ elim (Bool-cases (leb m r.attempt)) [
            | inl e'' ↦ rw e (
                rw e' (
                  rw e'' (
                    put_bounded m c.idempotency_key _ db.runs b
                        (subst (AttemptsAtMost m) f (b c.idempotency_key)),
                    λ t g. cc,
                  )))
            | inr e'' ↦ rw e (
                rw e' (
                  rw e'' (
                    after_handler-Failed m c (started c (some r)) (handler db.data_rows) db b
                      (ap (started c) (sym f)) (ground arith))))
          ]
        ]
        | inr e ↦ rw e (b, λ t g. cc)
      ]

  attempt_job-Failed :
      (m : ℕ) (c : JobCall) (handler : D → Outcome HandlerError D) (l : Bool) (db : Database D)
      → 1 ≤ m
      → Bounded m db
      → FailedOrBounded m c db (attempt_job m c handler l db)
  unfolding attempt_job
  attempt_job-Failed m c handler l db p b = elim (Bool-cases c.is_aware) [
    | inl e ↦ elim (Bool-cases l) [
      | inl e' ↦
          simp (e, e') (with_existing-Failed m c handler (db.runs c.idempotency_key) db p b refl)
      | inr e' ↦ simp (e, e') (b, λ t g. cc)
    ]
    | inr e ↦ simp e (b, λ t g. cc)
  ]

  after_attempt-Bounded :
      (m : ℕ) (c : JobCall) (l : Bool) (db : Database D)
      (y : Outcome JobError JobExecutionResult × Database D)
      → FailedOrBounded m c db y
      → Bounded m (after_attempt c l y).1
  unfolding after_attempt record_failure
  after_attempt-Bounded m c l db (ok x, z) h = h.0
  after_attempt-Bounded m c true db (err (handler_failed t), z) h =
      let (same, fits) = h.1 t refl in
      put_bounded m c.idempotency_key _ z.runs h.0
        (subst (λ w. (started c (w.runs c.idempotency_key)).attempt ≤ m) (sym same) fits)
  after_attempt-Bounded m c false db (err (handler_failed t), z) h = h.0
  after_attempt-Bounded m c l db (err _, z) h = h.0

  -- A call whose two transactions are not separated by another keeps every run's number of starts
  -- within the limit of at least one.
  pub execute-Bounded :
      (m : ℕ) (c : JobCall) (handler : D → Outcome HandlerError D) (l l' : Bool) (db : Database D)
      → 1 ≤ m
      → Bounded m db
      → Bounded m (execute m c handler l l' db).1
  unfolding execute
  execute-Bounded m c handler l l' db p b =
      after_attempt-Bounded m c l' db (attempt_job m c handler l db)
        (attempt_job-Failed m c handler l db p b)
