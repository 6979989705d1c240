-- ===== src/Schedule/Plan.antt =====
-- The jobs that are planned for a session.
use jz_investment_os.Base.{
  ℕ, ◌≡◌, refl, ap, ◌∙◌, Bool, true, false, not, ◌&&◌, List, [], ◌∷◌, map, any, All, arith, ltb,
  ◌==◌, ok, traverse, eqb_refl, ◌-◌, ◌/◌,
}
use jz_investment_os.Base.Text.{is_blank, strip}
use jz_investment_os.Values.{Datetime}
use jz_investment_os.Schedule.{
  TradingSession, ExplicitTradingCalendar, Clock, Zone, CloseTime, JobDefinition, same_month,
  same_quarter, ScheduledJob, timezone, contains, session_close, scheduled_job, job_for_session,
  definitions_for, jobs_for_session, daily_job, weekly_job, monthly_job, quarterly_job, add_when,
  is_final_session_of_week, is_final_session_of_month, is_final_session_of_quarter,
}

wider_final :
    (narrow wide : ℕ → ℕ → Bool) (f : TradingSession) (ts : List TradingSession)
    → ((d e : ℕ) → narrow d e ≡ true → wide d e ≡ true)
    → any (λ t. wide t.business_date f.business_date && ltb f.business_date t.business_date) ts
      ≡ false
    → any (λ t. narrow t.business_date f.business_date && ltb f.business_date t.business_date) ts
      ≡ false
wider_final narrow wide f [] h e = refl
wider_final narrow wide f (t ∷ ts) h e =
    let here = h t.business_date f.business_date in
    ground (arith, here, e, wider_final narrow wide f ts h)

month-quarter :
    (clock : Clock) (d e : ℕ) → same_month clock d e ≡ true → same_quarter clock d e ≡ true
month-quarter clock d e k =
    let year : (clock.year d == clock.year e) ≡ true = ground (arith, k) in
    let month : clock.month d ≡ clock.month e = ground (arith, k) in
    rw year
      (ap (λ m. (m - 1) / 3 == (clock.month e - 1) / 3) month ∙ eqb_refl ((clock.month e - 1) / 3))

-- A final session of a quarter is the final one of its month.
quarter_final :
    (clock : Clock) (c : ExplicitTradingCalendar) (s : TradingSession)
    → is_final_session_of_quarter clock c s ≡ true
    → is_final_session_of_month clock c s ≡ true
unfolding is_final_session_of_quarter is_final_session_of_month
quarter_final clock c s h = ap not (
    wider_final (same_month clock) (same_quarter clock) s c.sessions (month-quarter clock)
      (ground (arith, h)))

-- The wall clock of a session, read in its zone, is on the date of the session.
abbrev pub KeepsDates : Clock → Type 0
KeepsDates clock =
    (zone : Zone) (d : ℕ) (t : CloseTime) → clock.date_at zone (clock.instant zone d t) ≡ d

abbrev pub planned_job :
    Clock → ExplicitTradingCalendar → TradingSession → JobDefinition → ScheduledJob
planned_job clock c s d =
    let close = Datetime.aware (session_close clock (timezone c.venue) s) in
    record { name = d.name; cadence = d.cadence; as_of = close; scheduled_for = close }

module _ (clock : Clock) (dates : KeepsDates clock) (c : ExplicitTradingCalendar)
    (s : TradingSession) (known : contains c s ≡ true) where
  planned :
      (d : JobDefinition)
      → is_blank d.name ≡ false
      → job_for_session clock d c s (Datetime.aware (session_close clock (timezone c.venue) s))
        ≡ ok (planned_job clock c s d)
  unfolding job_for_session scheduled_job
  planned d named =
      let zone = timezone c.venue in
      let close = session_close clock zone s in
      let on_date : (clock.date_at zone close == s.business_date) ≡ true =
        ap (λ x. x == s.business_date) (dates zone s.business_date s.close_at)
        ∙ eqb_refl s.business_date in
      let in_order : ltb close close ≡ false = ground arith in
      rw known (rw on_date (rw named (rw in_order refl)))

  All-planned :
      (ds : List JobDefinition)
      → All (λ d. is_blank d.name ≡ false) ds
      → traverse
          (λ d.
            job_for_session clock d c s (Datetime.aware (session_close clock (timezone c.venue) s)))
          ds
        ≡ ok (map (planned_job clock c s) ds)
  All-planned [] named = refl
  All-planned (d ∷ ds) named = rw (planned d named.0) (rw (All-planned ds named.1) refl)

  add_when-named :
      (b : Bool) (d : JobDefinition) (ds : List JobDefinition)
      → is_blank d.name ≡ false
      → All (λ x. is_blank x.name ≡ false) ds
      → All (λ x. is_blank x.name ≡ false) (add_when b d ds)
  add_when-named true d ds h k = (h, k)
  add_when-named false d ds h k = k

  -- For a session of the calendar, the plan is the daily job, the weekly job if the session is the
  -- final one of its week, the monthly job if it is the final one of its month, and the quarterly
  -- job if it is the final one of its quarter, each at the close of the session; and a plan with the
  -- quarterly job has the monthly job. (The close of a session, read in its zone, is on its date.)
  pub jobs_for_session_lem :
      (jobs_for_session clock c s
        ≡ ok (
            map (planned_job clock c s) (
              daily_job
              ∷ add_when (is_final_session_of_week clock c s) weekly_job (
                  add_when
                    (is_final_session_of_month clock c s)
                    monthly_job
                    (add_when (is_final_session_of_quarter clock c s) quarterly_job [])))))
      × (is_final_session_of_quarter clock c s ≡ true → is_final_session_of_month clock c s ≡ true)
  unfolding jobs_for_session definitions_for is_blank strip
  jobs_for_session_lem =
      let week = is_final_session_of_week clock c s in
      let month = is_final_session_of_month clock c s in
      let quarter = is_final_session_of_quarter clock c s in
      let named = add_when-named week weekly_job _ refl (
        add_when-named month monthly_job _ refl (add_when-named quarter quarterly_job _ refl tt)) in
      (rw known (All-planned (definitions_for clock c s) (refl, named)), quarter_final clock c s)
