-- ===== src/Sessions/Transitions.antt =====
-- Which transitions the session keeper asks for.
use equinox.Prelude.{◌≤◌, ◌<◌, ◌≡◌, false, Option, none, some, arith, get_or, ◌⊎◌}
use equinox.Sessions.{
  SessionStatus, regular, extended, closed, holiday, Mode, open_mode, TradingStatus, CalendarConfig,
  LocalTime, includes_date, stops_exposure, session_calendar_status, derive_target_session_status,
  target_mode, session_transition_for,
}

-- The mode after the transition that is asked for, if one is.
abbrev pub after_transition : Option Mode → Mode → Mode
after_transition none current = current
after_transition (some m) current = m

-- The transition leads to the calendar's mode from any mode, and there no other is asked for.
pub transition_settles :
    (status : SessionStatus) (current : Mode)
    → let m = after_transition (session_transition_for status current) current in
      (m ≡ target_mode status) × (session_transition_for status m ≡ none)
unfolding session_transition_for target_mode
transition_settles regular current = ground arith
transition_settles extended current = ground arith
transition_settles closed current = ground arith
transition_settles holiday current = ground arith

-- If the pre-market starts before the regular session and before the day's close, and the regular
-- session before the post-market's end, a market is to be open only at a time of a working day from the start of the pre-market to the
-- end of the post-market or the day's close, while Pyth reports no halt and no corporate action,
-- where no administrator overrides the calendar.
pub opens_only_in_session :
    (config : CalendarConfig) (t : LocalTime) (pyth : Option TradingStatus)
    → config.pre_market_open ≤ config.regular_open
    → config.regular_open ≤ config.post_market_close
    → config.pre_market_open ≤ get_or (config.early_closes t.date) config.regular_close
    → target_mode (derive_target_session_status config t pyth none) ≡ open_mode
    → (stops_exposure pyth ≡ false)
      × (t.weekend ≡ false)
      × (includes_date config.holidays t.date ≡ false)
      × (config.pre_market_open ≤ t.minutes_of_day)
      × ((t.minutes_of_day < config.post_market_close)
          ⊎ (t.minutes_of_day < get_or (config.early_closes t.date) config.regular_close))
unfolding target_mode derive_target_session_status session_calendar_status
opens_only_in_session config t pyth h l k e = ground arith
