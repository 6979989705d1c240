-- ===== src/Tests/Schedules.antt =====
-- A calendar of three sessions in one month.
use jz_investment_os.Base.{ℕ, ◌≡◌, refl, true, false, ◌+◌, ◌*◌, ◌/◌, ◌%◌, [], ◌∷◌, arith, ok, map}
use jz_investment_os.Schedule.{
  MarketVenue, TradingSession, ExplicitTradingCalendar, Clock, session_for, contains,
  explicit_trading_calendar, jobs_for_session, daily_job, weekly_job, monthly_job, quarterly_job,
  add_when, is_final_session_of_week, is_final_session_of_month, is_final_session_of_quarter,
}
use jz_investment_os.Schedule.Plan.{KeepsDates, planned_job, jobs_for_session_lem}

abbrev session : ℕ → TradingSession
session d = record { business_date = d; close_at = record { clock = 960; is_aware = false } }

abbrev calendar : ExplicitTradingCalendar
calendar = record {
  sessions = session 3 ∷ session 4 ∷ session 8 ∷ [];
  venue = MarketVenue.us_equities;
}

-- A clock of months of 30 days and one zone.
abbrev clock : Clock
clock = record {
  year = λ d. d / 360;
  month = λ d. d / 30 % 12 + 1;
  iso_year = λ d. 0;
  iso_week = λ d. d / 7;
  instant = λ zone d t. d * 1440 + t.clock % 1440;
  date_at = λ zone i. i / 1440;
}

clock-KeepsDates : KeepsDates clock
clock-KeepsDates zone d t = omega arith

calendar_test : explicit_trading_calendar calendar ≡ ok calendar
unfolding explicit_trading_calendar
calendar_test = refl

known : contains calendar (session 4) ≡ true
unfolding contains session_for
known = refl

jobs_for_session_lem_example :
    (jobs_for_session clock calendar (session 4)
      ≡ ok (
          map (planned_job clock calendar (session 4)) (
            daily_job
            ∷ add_when (is_final_session_of_week clock calendar (session 4)) weekly_job (
                add_when (is_final_session_of_month clock calendar (session 4)) monthly_job (
                  add_when
                    (is_final_session_of_quarter clock calendar (session 4))
                    quarterly_job
                    [])))))
    × (is_final_session_of_quarter clock calendar (session 4) ≡ true
        → is_final_session_of_month clock calendar (session 4) ≡ true)
jobs_for_session_lem_example =
    jobs_for_session_lem clock clock-KeepsDates calendar (session 4) known
