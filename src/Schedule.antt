-- ===== src/Schedule.antt =====
-- src/investment_os/application/schedule.py: the trading calendar and the jobs of a session. The
-- conversions of `zoneinfo` and the calendar functions of `date` are parameters.
pub mod Final
pub mod Plan
use jz_investment_os.Base.{
  ℕ, Bool, true, false, not, ◌&&◌, ◌||◌, Option, none, some, List, [], ◌∷◌, ◌++◌, map, Outcome, ok,
  err, ◌-◌, ◌/◌, ◌>>=◌, ◌>>◌, reject_if, ensure, any, distinct, traverse, ltb, ◌==◌, if◌then◌else◌,
}
use jz_investment_os.Base.Text.{Text, codes, is_blank}
use jz_investment_os.Base.Sort.{eqb_list}
use jz_investment_os.Lifecycle.Transition.{UtcTimestamp}
use jz_investment_os.Values.{Datetime}

pub data MarketVenue : Type 0 where
  us_equities sse szse : MarketVenue

pub data Zone : Type 0 where
  new_york shanghai : Zone

-- `MarketVenue.timezone`
abbrev pub timezone : MarketVenue → Zone
timezone MarketVenue.us_equities = Zone.new_york
timezone _ = Zone.shanghai

pub data JobCadence : Type 0 where
  daily weekly monthly quarterly : JobCadence

-- The `ValueError`s of the module.
pub data ScheduleError : Type 0 where
  blank_name duplicate_dates aware_close naive_instant : ScheduleError
  unknown_session wrong_date after_close : ScheduleError

pub record JobDefinition : Type 0 where
  pub name : Text
  pub cadence : JobCadence

-- `JobDefinition.__post_init__`
unfoldable pub job_definition : JobDefinition → Outcome ScheduleError JobDefinition
job_definition d = do reject_if (is_blank d.name) ScheduleError.blank_name; ok d

abbrev pub daily_job : JobDefinition
daily_job = record { name = codes "daily"; cadence = JobCadence.daily }

abbrev pub weekly_job : JobDefinition
weekly_job = record { name = codes "weekly"; cadence = JobCadence.weekly }

abbrev pub monthly_job : JobDefinition
monthly_job = record { name = codes "monthly"; cadence = JobCadence.monthly }

abbrev pub quarterly_job : JobDefinition
quarterly_job = record { name = codes "quarterly"; cadence = JobCadence.quarterly }

-- A `time`: its wall clock, and whether it carries a zone.
pub record CloseTime : Type 0 where
  pub clock : ℕ
  pub is_aware : Bool

-- A date is the number of its day.
pub record TradingSession : Type 0 where
  pub business_date : ℕ
  pub close_at : CloseTime

pub record ExplicitTradingCalendar : Type 0 where
  pub sessions : List TradingSession
  pub venue : MarketVenue

-- `ExplicitTradingCalendar.__post_init__`
unfoldable pub explicit_trading_calendar :
    ExplicitTradingCalendar → Outcome ScheduleError ExplicitTradingCalendar
explicit_trading_calendar c = do
  reject_if (not (distinct (map (λ s. s.business_date) c.sessions))) ScheduleError.duplicate_dates
  reject_if (any (λ s. s.close_at.is_aware) c.sessions) ScheduleError.aware_close
  ok c

-- `==` of sessions.
abbrev pub eqb_session : TradingSession → TradingSession → Bool
eqb_session s t =
    s.business_date == t.business_date
    && (s.close_at.clock == t.close_at.clock
        && (if s.close_at.is_aware then t.close_at.is_aware else not t.close_at.is_aware))

-- `ExplicitTradingCalendar.session_for`
unfoldable pub session_for : ℕ → List TradingSession → Option TradingSession
session_for business_date [] = none
session_for business_date (s ∷ sessions) =
    let rest = session_for business_date sessions in
    if s.business_date == business_date then some s else rest

abbrev pub is_session : Option TradingSession → TradingSession → Bool
is_session none s = false
is_session (some t) s = eqb_session t s

-- `ExplicitTradingCalendar.contains`
unfoldable pub contains : ExplicitTradingCalendar → TradingSession → Bool
contains c s = is_session (session_for s.business_date c.sessions) s

-- What `date` and `zoneinfo` compute: the fields of a date, `isocalendar()[:2]`, the instant of a wall
-- clock on a date in a zone, and the date in a zone at an instant.
pub record Clock : Type 0 where
  pub year : ℕ → ℕ
  pub month : ℕ → ℕ
  pub iso_year : ℕ → ℕ
  pub iso_week : ℕ → ℕ
  pub instant : Zone → ℕ → CloseTime → UtcTimestamp
  pub date_at : Zone → UtcTimestamp → ℕ

-- Another session in the same period comes later.
abbrev pub is_final : (ℕ → ℕ → Bool) → ExplicitTradingCalendar → TradingSession → Bool
is_final same_period c s = not (
    any (λ t. same_period t.business_date s.business_date && ltb s.business_date t.business_date)
      c.sessions)

pub record ScheduledJob : Type 0 where
  pub name : Text
  pub cadence : JobCadence
  pub as_of : Datetime
  pub scheduled_for : Datetime

-- `ScheduledJob.__post_init__`, on instants with a zone.
unfoldable pub scheduled_job :
    Text → JobCadence → UtcTimestamp → UtcTimestamp → Outcome ScheduleError ScheduledJob
scheduled_job name cadence as_of scheduled_for = do
  reject_if (is_blank name) ScheduleError.blank_name
  reject_if (ltb scheduled_for as_of) ScheduleError.after_close
  ok (record {
    name = name;
    cadence = cadence;
    as_of = Datetime.aware as_of;
    scheduled_for = Datetime.aware scheduled_for;
  })

-- `if b: definitions.append(d)`, in front of what is appended later.
abbrev pub add_when : Bool → JobDefinition → List JobDefinition → List JobDefinition
add_when b d ds = if b then d ∷ ds else ds

module _ (clock : Clock) where
  abbrev pub same_week : ℕ → ℕ → Bool
  same_week d e = clock.iso_year d == clock.iso_year e && clock.iso_week d == clock.iso_week e

  abbrev pub same_month : ℕ → ℕ → Bool
  same_month d e = clock.year d == clock.year e && clock.month d == clock.month e

  -- `(month - 1) // 3`; months start at 1.
  abbrev pub same_quarter : ℕ → ℕ → Bool
  same_quarter d e =
      clock.year d == clock.year e && (clock.month d - 1) / 3 == (clock.month e - 1) / 3

  -- `is_final_session_of_week`, `is_final_session_of_month`, `is_final_session_of_quarter`
  unfoldable pub is_final_session_of_week : ExplicitTradingCalendar → TradingSession → Bool
  is_final_session_of_week = is_final same_week

  unfoldable pub is_final_session_of_month : ExplicitTradingCalendar → TradingSession → Bool
  is_final_session_of_month = is_final same_month

  unfoldable pub is_final_session_of_quarter : ExplicitTradingCalendar → TradingSession → Bool
  is_final_session_of_quarter = is_final same_quarter

  -- `TradingSession.scheduled_for`
  abbrev pub session_close : Zone → TradingSession → UtcTimestamp
  session_close zone s = clock.instant zone s.business_date s.close_at

  -- `_job_for_session`
  unfoldable pub job_for_session :
      JobDefinition
      → ExplicitTradingCalendar
      → TradingSession
      → Datetime
      → Outcome ScheduleError ScheduledJob
  job_for_session definition c s (Datetime.naive wall) = err ScheduleError.naive_instant
  job_for_session definition c s (Datetime.aware as_of) = do
    ensure (contains c s) ScheduleError.unknown_session
    ensure (clock.date_at (timezone c.venue) as_of == s.business_date) ScheduleError.wrong_date
    scheduled_job definition.name definition.cadence as_of (session_close (timezone c.venue) s)

  -- `daily_job_for_session`
  unfoldable pub daily_job_for_session :
      ExplicitTradingCalendar
      → Text
      → TradingSession
      → Datetime
      → Outcome ScheduleError ScheduledJob
  daily_job_for_session c name s as_of = do
    definition ← job_definition (record { name = name; cadence = JobCadence.daily })
    job_for_session definition c s as_of

  -- The list `definitions` of `jobs_for_session`.
  unfoldable pub definitions_for : ExplicitTradingCalendar → TradingSession → List JobDefinition
  definitions_for c s =
      daily_job
      ∷ add_when (is_final_session_of_week c s) weekly_job (
          add_when (is_final_session_of_month c s) monthly_job
            (add_when (is_final_session_of_quarter c s) quarterly_job []))

  -- `jobs_for_session`
  unfoldable pub jobs_for_session :
      ExplicitTradingCalendar → TradingSession → Outcome ScheduleError (List ScheduledJob)
  jobs_for_session c s = do
    ensure (contains c s) ScheduleError.unknown_session
    let as_of = session_close (timezone c.venue) s
    traverse (λ d. job_for_session d c s (Datetime.aware as_of)) (definitions_for c s)
