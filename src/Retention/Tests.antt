-- ===== src/Retention/Tests.antt =====
-- A change below the minimum, with an approval.
use wireguard_ops_cockpit.Base.{◌≡◌, refl, true, false, [], ◌∷◌}
use wireguard_ops_cockpit.Base.Json.{Fields, fields, num, negative, str}
use wireguard_ops_cockpit.Base.Text.{joined, decimal}
use wireguard_ops_cockpit.Retention.{
  refused, needs_approval, integer, check_field, check_time, classify_retention,
  decide_retention_change,
}
use wireguard_ops_cockpit.Retention.Laws.{IsSafe, decide_retention_change-IsSafe}
use wireguard_ops_cockpit.Schedule.{validate_time_utc}

abbrev change : Fields
change = fields (
    ("keepDaily", num 2)
    ∷ ("keepWeekly", str "2")
    ∷ ("keepMonthly", num 0)
    ∷ ("time", str "06:00")
    ∷ [])

below_minimum :
    decide_retention_change change false
    ≡ needs_approval ("keep_daily 2 is below the minimum 3" ∷ [])
unfolding decide_retention_change classify_retention integer check_field check_time
    validate_time_utc joined decimal
below_minimum = refl

decide_retention_change-IsSafe_example : IsSafe true (decide_retention_change change true)
decide_retention_change-IsSafe_example = decide_retention_change-IsSafe change true

abbrev negative_weeks : Fields
negative_weeks = fields (
    ("keepDaily", num 3)
    ∷ ("keepWeekly", negative 0)
    ∷ ("keepMonthly", num 0)
    ∷ ("time", str "06:00")
    ∷ [])

below_floor :
    decide_retention_change negative_weeks true
    ≡ refused ("keep_weekly -1 is below the floor 0, even with approval" ∷ [])
unfolding decide_retention_change classify_retention integer check_field check_time
    validate_time_utc joined decimal
below_floor = refl
