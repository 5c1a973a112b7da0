-- ===== src/Market.antt =====
-- market.py: sessions by weekday and time of day in New York, without holidays. The local time of a
-- moment is a parameter: its day, counted from a Monday, and the microseconds of its clock; so are the
-- moments that local times stand for, in microseconds.
pub mod Sessions
mod Scenarios
use quick_price.Prelude.{
  ℕ, zero, suc, ◌+◌, ◌-◌, ◌*◌, ◌/◌, ◌%◌, max, Bool, true, false, not, ◌&&◌, ◌||◌, Option, none,
  some, String, ltb, leb, ◌==◌, if◌then◌else◌,
}

pub record Local : Type 0 where
  pub day : ℕ
  pub clock : ℕ

-- `MarketCalendar`
pub data Calendar : Type 0 where
  always_open us_equity fx_24x5 : Calendar

abbrev pub minute : ℕ
minute = 60_000_000

-- `weekday()`, with 0 for a Monday
unfoldable pub weekday : ℕ → ℕ
weekday day = day % 7

-- whether a time of a day is later than a local time
unfoldable pub is_after : ℕ → ℕ → Local → Bool
is_after day clock l = ltb l.day day || (l.day == day && ltb l.clock clock)

abbrev pub open_at : ℕ
open_at = 570 * minute

-- the loop of `seconds_until_next_us_equity_open`, with the day that it finds
unfoldable pub next_open_from : ℕ → ℕ → Local → Option ℕ
unfolding weekday is_after
next_open_from zero day l = none
next_open_from (suc rounds) day l =
    let rest = next_open_from rounds (day + 1) l in
    if ltb (weekday day) 5 && is_after day open_at l then some day else rest

unfoldable pub next_open : Local → Option ℕ
next_open l = next_open_from 8 l.day l

-- `seconds_until_next_us_equity_open`, in microseconds; `none` is its RuntimeError
unfoldable pub until_next_open : (Local → ℕ) → Local → Option ℕ
unfolding next_open
until_next_open moment l = elim (next_open l) [
  | none ↦ none
  | some day ↦ some (max 1_000_000 (moment (record { day = day; clock = open_at }) - moment l))
]

-- `scheduled_market_status`
unfoldable pub scheduled_market_status : Calendar → Local → String
unfolding weekday
scheduled_market_status us_equity l =
    let m = l.clock / minute in
    if ltb (weekday l.day) 5 && leb 570 m && ltb m 960 then "open" else "closed"
scheduled_market_status fx_24x5 l =
    let m = l.clock / minute in
    if (weekday l.day == 6 && leb 1020 m)
      || ltb (weekday l.day) 4
      || (weekday l.day == 4 && ltb m 1020)
    then "open"
    else "closed"
scheduled_market_status always_open l = "open"

abbrev pub close_at : Calendar → ℕ
close_at us_equity = 960 * minute
close_at fx_24x5 = 1020 * minute
close_at always_open = 1020 * minute

unfoldable pub is_close_day : Calendar → ℕ → Bool
unfolding weekday
is_close_day us_equity day = ltb (weekday day) 5
is_close_day fx_24x5 day = weekday day == 4
is_close_day always_open day = weekday day == 4

-- the loop of `most_recent_scheduled_close`, backwards from a day, with the day that it finds
unfoldable pub last_close_from : Calendar → ℕ → ℕ → Local → Option ℕ
unfolding is_close_day is_after
last_close_from c zero day l = none
last_close_from c (suc rounds) day l =
    let rest = last_close_from c rounds (day - 1) l in
    if is_close_day c day && not (is_after day (close_at c) l) then some day else rest

-- the day of `most_recent_scheduled_close`
unfoldable pub last_close : Calendar → Local → Option ℕ
unfolding last_close_from
last_close always_open l = none
last_close us_equity l = last_close_from us_equity 8 l.day l
last_close fx_24x5 l = last_close_from fx_24x5 8 l.day l
