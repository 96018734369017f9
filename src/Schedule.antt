-- ===== src/Schedule.antt =====
-- apps/api/src/app.ts: when a weekly schedule runs next. A time is in milliseconds of UTC.
pub mod Weekly
pub mod Requests
pub mod Running
mod Tests
use wireguard_ops_cockpit.Base.{
  ℕ, ◌+◌, ◌-◌, ◌*◌, ◌/◌, ◌%◌, String, Bool, true, false, Option, none, some, List, [], ◌∷◌, ◌==◌,
  ◌&&◌, ◌||◌, leb, if◌then◌else◌, nat_eq,
}
use wireguard_ops_cockpit.Base.Options.{◌>>=◌}
use wireguard_ops_cockpit.Base.Text.{codes, is_digit}

abbrev pub day_ms : ℕ
day_ms = 86400000

-- `getUTCDay()`: the first day of 1970 was a Thursday.
abbrev pub weekday_of : ℕ → ℕ
weekday_of time = (time / day_ms + 4) % 7

abbrev pub digit : ℕ → ℕ
digit c = c - b'0'

-- `/^([01]\d|2[0-3]):([0-5]\d)$/`, with the hours and minutes that the two parts are.
abbrev pub clock_of : List ℕ → Option (ℕ × ℕ)
clock_of (h ∷ h' ∷ colon ∷ m ∷ m' ∷ []) =
    if ((leb b'0' h && leb h b'1' && is_digit h') || (h == b'2' && leb b'0' h' && leb h' b'3'))
      && colon == b':'
      && leb b'0' m
      && leb m b'5'
      && is_digit m'
    then some (digit h * 10 + digit h', digit m * 10 + digit m')
    else none
clock_of _ = none

unfoldable pub validate_time_utc : String → Option (ℕ × ℕ)
validate_time_utc text = clock_of (codes text)

-- The day of `from`, at the hour and minute.
abbrev pub target_on : ℕ → ℕ → ℕ → ℕ
target_on hours minutes from = from / day_ms * day_ms + hours * 3600000 + minutes * 60000

unfoldable pub days_ahead : ℕ → ℕ → ℕ → ℕ → ℕ
days_ahead weekday hours minutes from =
    let ahead = (weekday + 7 - weekday_of from) % 7 in
    if ahead == 0 && leb (target_on hours minutes from) from then 7 else ahead

unfoldable pub next_weekly_run : ℕ → ℕ → ℕ → ℕ → ℕ
next_weekly_run weekday hours minutes from =
    target_on hours minutes from + days_ahead weekday hours minutes from * day_ms

-- `none` for a text that is no time of the day.
unfoldable pub compute_next_weekly_run_at : ℕ → String → ℕ → Option ℕ
compute_next_weekly_run_at weekday time_utc from = do
  (hours, minutes) ← validate_time_utc time_utc
  some (next_weekly_run weekday hours minutes from)
