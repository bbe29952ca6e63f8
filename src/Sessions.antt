-- ===== src/Sessions.antt =====
-- The session calendar of a market and the mode that it asks for: workers/src/session-calendar.ts,
-- and `sessionTransitionFor` of workers/src/keeper-jobs.ts.
--
-- The local date, weekday and minute of a time are the platform's (`Intl.DateTimeFormat`), and
-- stand in a record. The times of the configuration are in minutes, as `minutesOf` reads them.
pub mod Transitions
use Prim.Native.String.{String}
use text.Mathlib.Text.{◌==◌ as str_eq}
use equinox.Prelude.{
  ℕ, Bool, true, false, Option, none, some, List, [], ◌∷◌, ◌&&◌, ◌||◌, ltb, leb, ◌==◌,
  if◌then◌else◌, get_or,
}

pub data SessionStatus : Type 0 where
  regular extended closed holiday : SessionStatus

pub data Mode : Type 0 where
  open_mode close_only paused : Mode

pub data TradingStatus : Type 0 where
  trading halted corp_action not_trading : TradingStatus

pub record CalendarConfig : Type 0 where
  pub pre_market_open : ℕ
  pub regular_open : ℕ
  pub regular_close : ℕ
  pub post_market_close : ℕ
  pub holidays : List String
  pub early_closes : String → Option ℕ

-- What `partsFor` returns; of the weekday only whether it is "Sat" or "Sun" counts.
pub record LocalTime : Type 0 where
  pub date : String
  pub weekend : Bool
  pub minutes_of_day : ℕ

abbrev pub includes_date : List String → String → Bool
includes_date [] date = false
includes_date (d ∷ ds) date = str_eq d date || includes_date ds date

unfoldable pub session_calendar_status : CalendarConfig → LocalTime → SessionStatus
session_calendar_status config t =
    let close = get_or (config.early_closes t.date) config.regular_close in
    let m = t.minutes_of_day in
    if t.weekend
    then closed
    else if includes_date config.holidays t.date
    then holiday
    else if leb config.regular_open m && ltb m close
    then regular
    else if (leb config.pre_market_open m && ltb m config.regular_open)
        || (leb close m && ltb m config.post_market_close)
    then extended
    else closed

abbrev pub stops_exposure : Option TradingStatus → Bool
stops_exposure (some halted) = true
stops_exposure (some corp_action) = true
stops_exposure _ = false

unfoldable pub derive_target_session_status :
    CalendarConfig → LocalTime → Option TradingStatus → Option SessionStatus → SessionStatus
derive_target_session_status config t pyth (some override) = override
derive_target_session_status config t pyth none =
    if stops_exposure pyth then holiday else session_calendar_status config t

-- From `MarketMode`: 0 paused, 1 open, 2 close-only, 3 emergency.
unfoldable pub current_mode_for : ℕ → Mode
current_mode_for market_mode =
    if market_mode == 1 then open_mode else if market_mode == 2 then close_only else paused

unfoldable pub target_mode : SessionStatus → Mode
target_mode regular = open_mode
target_mode extended = open_mode
target_mode closed = close_only
target_mode holiday = paused

abbrev pub same_mode : Mode → Mode → Bool
same_mode open_mode open_mode = true
same_mode close_only close_only = true
same_mode paused paused = true
same_mode _ _ = false

unfoldable pub session_transition_for : SessionStatus → Mode → Option Mode
unfolding target_mode
session_transition_for status current =
    if same_mode (target_mode status) current then none else some (target_mode status)
