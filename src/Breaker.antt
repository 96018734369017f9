-- ===== src/Breaker.antt =====
-- apps/api/src/circuit-breaker.ts: the circuit breaker of the change jobs.
-- An ISO time is the number of milliseconds that `Date.parse` reads from it.
pub mod Closing
mod Tests
use wireguard_ops_cockpit.Base.{
  ℕ, ◌+◌, ◌-◌, ◌*◌, String, Bool, true, false, Option, none, some, List, ◌==◌, leb, ltb, map,
  if◌then◌else◌, length, get_elem?, filter, option_eq, string_eq,
}
use wireguard_ops_cockpit.Base.Int.{ℤ, sub_ℕ}
use wireguard_ops_cockpit.Base.Sorting.{sort_by}

abbrev pub breaker_window_ms : ℕ
breaker_window_ms = 60 * 60000

pub record BreakerFailure : Type 0 where
  pub job_id : String
  pub time : ℕ
  pub key : Option String

pub data Scope : Type 0 where
  operation global : Scope

pub record BreakerState : Type 0 where
  pub scope : Scope
  pub key : Option String
  pub count : ℕ
  pub limit : ℕ
  pub job_ids : List String
  pub window_start : ℤ
  pub closes_at : ℕ

pub record Limits : Type 0 where
  pub per_operation : ℕ
  pub global : ℕ

-- What a call returns; `throws` is the TypeError of a read of `undefined.at`.
pub data Result (A : Type 0) : Type 0 where
  ok : A → Result A
  throws : Result A

infixl 5 ◌>>=◌
abbrev pub ◌>>=◌ : {A B : Type 0} → Result A → (A → Result B) → Result B
ok a >>= f = f a
throws >>= f = throws

-- `sorted[i].at`
abbrev pub read : Option BreakerFailure → Result ℕ
read (some failure) = ok failure.time
read none = throws

-- The record that `openState` returns.
abbrev pub opened : Scope → Option String → List BreakerFailure → ℕ → ℤ → ℕ → BreakerState
opened scope key sorted limit window_start closes_at = record {
  scope = scope;
  key = key;
  count = length sorted;
  limit = limit;
  job_ids = map (λ f. f.job_id) sorted;
  window_start = window_start;
  closes_at = closes_at;
}

unfoldable pub open_state :
    Scope → Option String → List BreakerFailure → ℕ → ℤ → ℕ → Result (Option BreakerState)
open_state scope key failures limit window_start window_ms =
    if ltb (length failures) limit
    then ok none
    else let sorted = sort_by (λ f. f.time) failures in
      do
        leaving ← read (get_elem? sorted (length sorted - limit))
        ok (some (opened scope key sorted limit window_start (leaving + window_ms)))

-- `Date.parse(failure.at) >= now - windowMs`, over the integers
abbrev pub in_window : ℕ → ℕ → BreakerFailure → Bool
in_window now window_ms failure = leb now (failure.time + window_ms)

-- The last three lines of `evaluateBreaker`.
unfoldable pub later_of : Option BreakerState → Option BreakerState → Option BreakerState
later_of (some own) (some all_keys) =
    if ltb own.closes_at all_keys.closes_at then some all_keys else some own
later_of (some own) none = some own
later_of none all_keys = all_keys

unfoldable pub evaluate_breaker :
    List BreakerFailure → String → Limits → ℕ → ℕ → Result (Option BreakerState)
unfolding open_state later_of
evaluate_breaker failures key limits now window_ms =
    let window_start = sub_ℕ now window_ms in
    let recent = filter (in_window now window_ms) failures in
    do
      own ←
          open_state operation (some key) (filter (λ f. f.key == some key) recent)
            limits.per_operation window_start window_ms
      all_keys ← open_state global none recent limits.global window_start window_ms
      ok (later_of own all_keys)
