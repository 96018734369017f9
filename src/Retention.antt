-- ===== src/Retention.antt =====
-- deploy/helpers/cockpit-borg-retention-rules.mjs and apps/api/src/borg-retention.ts: which retention of
-- the backups may be set.
pub mod Laws
mod Tests
use wireguard_ops_cockpit.Base.{
  ℕ, ◌+◌, ◌*◌, String, Bool, true, false, Option, none, some, List, [], ◌∷◌, ◌++◌, ◌&&◌, ◌||◌, not,
  all, ltb, leb, length, if◌then◌else◌,
}
use wireguard_ops_cockpit.Base.Int.{ℤ, pos, negsuc}
use wireguard_ops_cockpit.Base.Json.{Json, Fields, num, negative, str, lookup, as_string}
use wireguard_ops_cockpit.Base.Options.{◌>>=◌}
use wireguard_ops_cockpit.Base.Text.{codes, is_digit, joined, decimal}
use wireguard_ops_cockpit.Schedule.{validate_time_utc}

pub record Bounds : Type 0 where
  pub floor : ℕ
  pub min : ℕ
  pub max : ℕ

abbrev pub daily_bounds : Bounds
daily_bounds = record { floor = 1; min = 3; max = 30 }

abbrev pub weekly_bounds : Bounds
weekly_bounds = record { floor = 0; min = 2; max = 12 }

abbrev pub monthly_bounds : Bounds
monthly_bounds = record { floor = 0; min = 0; max = 24 }

-- 04:00 and 22:00, in minutes.
abbrev pub earliest : ℕ
earliest = 240

abbrev pub latest : ℕ
latest = 1320

pub record Settings : Type 0 where
  pub keep_daily : ℤ
  pub keep_weekly : ℤ
  pub keep_monthly : ℤ
  pub time : String

-- `Number(value)` of digits
abbrev pub number_of : ℕ → List ℕ → ℕ
number_of n [] = n
number_of n (c ∷ cs) = number_of (n * 10 + wireguard_ops_cockpit.Base.◌-◌ c b'0') cs

-- A safe integer, or a text `/^\d{1,4}$/`.
unfoldable pub integer : Option Json → Option ℤ
integer (some (num n)) = if leb n 9007199254740991 then some (pos n) else none
integer (some (negative n)) = if leb n 9007199254740990 then some (negsuc n) else none
integer (some (str s)) =
    let cs = codes s in
    if leb 1 (length cs) && leb (length cs) 4 && all is_digit cs
    then some (pos (number_of 0 cs))
    else none
integer _ = none

-- The tests `value > bound` and `value < bound`, and the number in a template literal.
abbrev pub is_above : ℤ → ℕ → Bool
is_above (pos n) bound = ltb bound n
is_above (negsuc n) bound = false

abbrev pub is_below : ℤ → ℕ → Bool
is_below (pos n) bound = ltb n bound
is_below (negsuc n) bound = true

abbrev pub integer_text : ℤ → String
integer_text (pos n) = decimal n
integer_text (negsuc n) = joined ("-" ∷ decimal (n + 1) ∷ [])

-- The errors of a field, and what is below its minimum.
unfoldable pub check_field : String → Bounds → Option ℤ → List String × List String
check_field flag b none = (joined (flag ∷ " must be a whole number" ∷ []) ∷ [], [])
check_field flag b (some v) =
    if is_above v b.max
    then (
      joined (flag ∷ " " ∷ integer_text v ∷ " is above the upper limit " ∷ decimal b.max ∷ []) ∷ [],
      [],
    )
    else if is_below v b.floor
    then (
      joined (
            flag
            ∷ " "
            ∷ integer_text v
            ∷ " is below the floor "
            ∷ decimal b.floor
            ∷ ", even with approval"
            ∷ [])
          ∷ [],
      [],
    )
    else if is_below v b.min
    then (
      [],
      joined (flag ∷ " " ∷ integer_text v ∷ " is below the minimum " ∷ decimal b.min ∷ []) ∷ [],
    )
    else ([], [])

abbrev pub in_time_window : ℕ → Bool
in_time_window at = not (ltb at earliest || ltb latest at)

unfoldable pub check_time : String → List String
check_time time = elim (validate_time_utc time) [
  | none ↦ "time must be HH:MM (24 h)" ∷ []
  | some (hours, minutes) ↦
      if in_time_window (hours * 60 + minutes)
      then []
      else joined (
          "time " ∷ time ∷ " is outside " ∷ "04:00–22:00"
          ∷ " (the service runs after the nightly backup)" ∷ [])
        ∷ []
]

abbrev pub settings_of : Option ℤ → Option ℤ → Option ℤ → String → Option Settings
settings_of daily weekly monthly time = do
  d ← daily
  w ← weekly
  m ← monthly
  some (record { keep_daily = d; keep_weekly = w; keep_monthly = m; time = time })

pub data Classified : Type 0 where
  rejected : List String → Classified
  accepted : Settings → List String → Classified

abbrev pub verdict_on : List String → List String → Option Settings → Classified
verdict_on [] below (some settings) = accepted settings below
verdict_on errors below settings = rejected errors

abbrev pub classify_values : Option ℤ → Option ℤ → Option ℤ → String → Classified
classify_values daily weekly monthly time =
    let d = check_field "keep_daily" daily_bounds daily in
    let w = check_field "keep_weekly" weekly_bounds weekly in
    let m = check_field "keep_monthly" monthly_bounds monthly in
    verdict_on (d.0 ++ (w.0 ++ (m.0 ++ check_time time))) (d.1 ++ (w.1 ++ m.1))
      (settings_of daily weekly monthly time)

abbrev pub time_of : Option String → String
time_of none = ""
time_of (some time) = time

unfoldable pub classify_retention : Fields → Classified
classify_retention source =
    classify_values (integer (lookup "keepDaily" source)) (integer (lookup "keepWeekly" source))
      (integer (lookup "keepMonthly" source)) (time_of (as_string (lookup "time" source)))

pub data Decision : Type 0 where
  refused : List String → Decision
  needs_approval : List String → Decision
  apply : Settings → Bool → List String → Decision

abbrev pub decide_classified : Classified → Bool → Decision
decide_classified (rejected errors) valid = refused errors
decide_classified (accepted settings []) valid = apply settings false []
decide_classified (accepted settings (x ∷ below)) valid =
    if valid then apply settings true (x ∷ below) else needs_approval (x ∷ below)

unfoldable pub decide_retention_change : Fields → Bool → Decision
decide_retention_change input valid = decide_classified (classify_retention input) valid
