-- ===== src/Schedule/Tests.antt =====
-- Thursday, 1 January 1970, at midnight, and the next Thursday at 3:30.
use wireguard_ops_cockpit.Base.{ℕ, ◌≡◌, refl, some, arith}
use wireguard_ops_cockpit.Schedule.{
  validate_time_utc, days_ahead, next_weekly_run, compute_next_weekly_run_at,
}
use wireguard_ops_cockpit.Base.Text.{codes}
use wireguard_ops_cockpit.Schedule.Weekly.{
  clock_text, IsFirstAfter, compute_next_weekly_run_at-first,
}

next_week : compute_next_weekly_run_at 4 "03:30" 12600000 ≡ some 617400000
unfolding compute_next_weekly_run_at validate_time_utc next_weekly_run days_ahead
next_week = refl

spelled : codes "03:30" ≡ clock_text 3 30
spelled = refl

compute_next_weekly_run_at-first_example :
    (next : ℕ) × (compute_next_weekly_run_at 4 "03:30" 12600000 ≡ some next)
    × IsFirstAfter 4 3 30 12600000 next
compute_next_weekly_run_at-first_example =
    compute_next_weekly_run_at-first 4 3 30 12600000 "03:30" (omega arith) (omega arith)
      (omega arith) spelled
