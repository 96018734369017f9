-- ===== src/Schedule/Weekly.antt =====
-- app.ts: the next weekly run is the first one of its weekday and time after the given moment.
use wireguard_ops_cockpit.Base.{
  refl, ℕ, ◌+◌, ◌*◌, ◌/◌, ◌%◌, ◌≤◌, ◌<◌, ◌≡◌, ◌∙◌, sym, ap, ◌⊎◌, String, some, List, [], ◌∷◌, arith,
  inl, inr,
}
use wireguard_ops_cockpit.Base.Text.{codes}
use wireguard_ops_cockpit.Schedule.{
  day_ms, weekday_of, clock_of, validate_time_utc, target_on, days_ahead, next_weekly_run,
  compute_next_weekly_run_at,
}

clock_of-bounds :
    (cs : List ℕ) (hours minutes : ℕ)
    → clock_of cs ≡ some (hours, minutes)
    → (hours < 24) × (minutes < 60)
clock_of-bounds (h ∷ h' ∷ colon ∷ m ∷ m' ∷ []) hours minutes e = ground arith
clock_of-bounds _ hours minutes e = absurd (ground arith)

validate_time_utc-bounds :
    (text : String) (hours minutes : ℕ)
    → validate_time_utc text ≡ some (hours, minutes)
    → (hours < 24) × (minutes < 60)
unfolding validate_time_utc
validate_time_utc-bounds text hours minutes e = clock_of-bounds (codes text) hours minutes e

days_ahead-lem :
    (weekday hours minutes from : ℕ)
    → weekday < 7
    → (days_ahead weekday hours minutes from ≤ 7)
      × ((from / day_ms + days_ahead weekday hours minutes from + 4) % 7 ≡ weekday)
      × ((1 ≤ days_ahead weekday hours minutes from) ⊎ (from < target_on hours minutes from))
      × ((days_ahead weekday hours minutes from ≤ 6) ⊎ (target_on hours minutes from ≤ from))
unfolding days_ahead
days_ahead-lem weekday hours minutes from w = ground arith

next_weekly_run-lem :
    (weekday hours minutes from : ℕ)
    → weekday < 7
    → hours < 24
    → minutes < 60
    → (from < next_weekly_run weekday hours minutes from)
      × (next_weekly_run weekday hours minutes from ≤ from + 7 * day_ms)
      × (weekday_of (next_weekly_run weekday hours minutes from) ≡ weekday)
      × (next_weekly_run weekday hours minutes from % day_ms ≡ hours * 3600000 + minutes * 60000)
unfolding next_weekly_run
next_weekly_run-lem weekday hours minutes from w h m =
    let (at_most, day, starts, ends) = days_ahead-lem weekday hours minutes from w in
    (
      elim starts [ inl later ↦ omega arith | inr today ↦ omega arith ],
      elim ends [ inl sooner ↦ omega arith | inr passed ↦ omega arith ],
      omega arith,
      omega arith,
    )

-- Two moments of one weekday and time are apart by whole weeks.
a_week_apart :
    (from next u : ℕ)
    → from < u
    → next ≤ from + 7 * day_ms
    → weekday_of u ≡ weekday_of next
    → u % day_ms ≡ next % day_ms
    → next ≤ u
a_week_apart from next u later soon day time = omega arith

-- What a run that was computed is.
abbrev pub IsFirstAfter : ℕ → ℕ → ℕ → ℕ → ℕ → Type 0
IsFirstAfter weekday hours minutes from next =
    (from < next)
    × (next ≤ from + 7 * day_ms)
    × (weekday_of next ≡ weekday)
    × (next % day_ms ≡ hours * 3600000 + minutes * 60000)
    × ((u : ℕ)
        → from < u
        → weekday_of u ≡ weekday
        → u % day_ms ≡ hours * 3600000 + minutes * 60000
        → next ≤ u)

-- The characters of `HH:MM`.
abbrev pub clock_text : ℕ → ℕ → List ℕ
clock_text hours minutes =
    (b'0' + hours / 10)
    ∷ (b'0' + hours % 10)
    ∷ b':'
    ∷ (b'0' + minutes / 10)
    ∷ (b'0' + minutes % 10)
    ∷ []

clock_of-clock_text :
    (hours minutes : ℕ)
    → hours < 24
    → minutes < 60
    → clock_of (clock_text hours minutes) ≡ some (hours, minutes)
clock_of-clock_text hours minutes h m = ground arith

-- For a weekday and the text `HH:MM` of an hour below 24 and a minute below 60 a next run is computed:
-- it is later than the given moment, by at most seven days, and it has that weekday and that time of
-- the day; no moment between them has both.
pub compute_next_weekly_run_at-first :
    (weekday hours minutes from : ℕ) (time_utc : String)
    → weekday < 7
    → hours < 24
    → minutes < 60
    → codes time_utc ≡ clock_text hours minutes
    → (next : ℕ) × (compute_next_weekly_run_at weekday time_utc from ≡ some next)
      × IsFirstAfter weekday hours minutes from next
unfolding compute_next_weekly_run_at validate_time_utc
compute_next_weekly_run_at-first weekday hours minutes from time_utc w h m spelled =
    let valid : clock_of (codes time_utc) ≡ some (hours, minutes) =
      ap clock_of spelled ∙ clock_of-clock_text hours minutes h m in
    let (later, soon, day, time) = next_weekly_run-lem weekday hours minutes from w h m in
    (
      next_weekly_run weekday hours minutes from,
      rw valid refl,
      (
        later,
        soon,
        day,
        time,
        λ u after at_day at_time.
            a_week_apart from _ u after soon (at_day ∙ sym day) (at_time ∙ sym time),
      ),
    )
