-- ===== src/Breaker/Tests.antt =====
-- The breaker at concrete failures.
use wireguard_ops_cockpit.Base.{
  ◌≡◌, ◌↔◌, ◌<◌, refl, Option, none, some, List, [], ◌∷◌, arith, count,
}
use wireguard_ops_cockpit.Base.Int.{pos}
use wireguard_ops_cockpit.Base.Sorting.{sort_by}
use wireguard_ops_cockpit.Breaker.{
  BreakerFailure, BreakerState, operation, Limits, ok, in_window, evaluate_breaker,
}
use wireguard_ops_cockpit.Breaker.Closing.{
  own_count, evaluate_breaker-closed_iff, evaluate_breaker-closes_at, evaluate_breaker-total,
}

abbrev failures : List BreakerFailure
failures =
    record { job_id = "c"; time = 500; key = some "k" }
    ∷ record { job_id = "a"; time = 300; key = some "k" }
    ∷ record { job_id = "b"; time = 400; key = none }
    ∷ []

abbrev limits : Limits
limits = record { per_operation = 2; global = 10 }

abbrev stopped : BreakerState
stopped = record {
  scope = operation;
  key = some "k";
  count = 2;
  limit = 2;
  job_ids = "a" ∷ "c" ∷ [];
  window_start = pos 200;
  closes_at = 700;
}

stopped_example : evaluate_breaker failures "k" limits 600 400 ≡ ok (some stopped)
unfolding evaluate_breaker sort_by
stopped_example = refl

other_key_example : evaluate_breaker failures "other" limits 600 400 ≡ ok none
unfolding evaluate_breaker sort_by
other_key_example = refl

evaluate_breaker-closes_at_example :
    (evaluate_breaker failures "k" limits 701 400 ≡ ok none) ↔ (700 < 701)
evaluate_breaker-closes_at_example =
    evaluate_breaker-closes_at 400 failures "k" limits (omega arith) (omega arith) 600 701 stopped
      stopped_example (omega arith)

evaluate_breaker-closed_iff_example :
    (evaluate_breaker failures "k" limits 600 400 ≡ ok none)
    ↔ ((own_count 400 "k" 600 failures < 2) × (count (in_window 600 400) failures < 10))
evaluate_breaker-closed_iff_example =
    evaluate_breaker-closed_iff 400 failures "k" limits (omega arith) (omega arith) 600

evaluate_breaker-total_example :
    (o : Option BreakerState) × (evaluate_breaker failures "k" limits 600 400 ≡ ok o)
evaluate_breaker-total_example =
    evaluate_breaker-total 400 failures "k" limits (omega arith) (omega arith) 600
