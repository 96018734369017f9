-- ===== src/Retention/Laws.antt =====
-- apps/api/src/borg-retention.ts: no decision lets a retention out of its bounds.
use mathlib.Core.Path.{subst}
use wireguard_ops_cockpit.Base.{
  ℕ, ◌+◌, ◌*◌, ◌≤◌, ◌≡◌, ◌≢◌, refl, String, Bool, true, false, Option, none, some, List, [], ◌∷◌,
  ◌++◌, arith, Option-cases, inl, inr, ◌⊎◌,
}
use wireguard_ops_cockpit.Base.Int.{ℤ, pos, negsuc}
use wireguard_ops_cockpit.Base.Json.{Fields, lookup, as_string}
use wireguard_ops_cockpit.Retention.{
  Bounds, daily_bounds, weekly_bounds, monthly_bounds, earliest, latest, Settings, integer,
  check_field, check_time, settings_of, Classified, rejected, accepted, verdict_on, classify_values,
  time_of, classify_retention, Decision, refused, needs_approval, apply, decide_classified,
  decide_retention_change,
}
use wireguard_ops_cockpit.Schedule.{validate_time_utc}

check_field-lem :
    (flag : String) (b : Bounds) (v : Option ℤ)
    → (check_field flag b v).0 ≡ []
    → (n : ℕ) × (v ≡ some (pos n))
      × (b.floor ≤ n)
      × (n ≤ b.max)
      × ((check_field flag b v).1 ≡ [] → b.min ≤ n)
unfolding check_field
check_field-lem flag b none h = absurd (ground arith)
check_field-lem flag b (some (negsuc n)) h = absurd (ground arith)
check_field-lem flag b (some (pos n)) h =
    (n, refl, ground arith, ground arith, λ none_below. ground arith)

check_time-lem :
    (time : String)
    → check_time time ≡ []
    → (hours : ℕ) × (minutes : ℕ) × (validate_time_utc time ≡ some (hours, minutes))
      × (earliest ≤ hours * 60 + minutes)
      × (hours * 60 + minutes ≤ latest)
unfolding check_time
check_time-lem time h = elim (Option-cases (validate_time_utc time)) [
  | inl missing ↦ absurd (ground arith)
  | inr ((hours, minutes), there) ↦ (hours, minutes, there, ground arith, ground arith)
]

++-nil : {A : Type 0} (xs ys : List A) → xs ++ ys ≡ [] → (xs ≡ []) × (ys ≡ [])
++-nil [] ys h = (refl, h)
++-nil (x ∷ xs) ys h = absurd (ground arith)

-- The bounds of a setting: its numbers of archives are whole and not negative.
abbrev pub InBounds : Settings → Type 0
InBounds s =
    ((daily : ℕ) × (s.keep_daily ≡ pos daily) × (1 ≤ daily) × (daily ≤ 30))
    × ((weekly : ℕ) × (s.keep_weekly ≡ pos weekly) × (weekly ≤ 12))
    × ((monthly : ℕ) × (s.keep_monthly ≡ pos monthly) × (monthly ≤ 24))
    × ((hours : ℕ) × (minutes : ℕ) × (validate_time_utc s.time ≡ some (hours, minutes))
        × (4 * 60 ≤ hours * 60 + minutes)
        × (hours * 60 + minutes ≤ 22 * 60))

-- What needs no approval.
abbrev pub IsFree : Settings → Type 0
IsFree s =
    ((daily : ℕ) × (s.keep_daily ≡ pos daily) × (3 ≤ daily))
    × ((weekly : ℕ) × (s.keep_weekly ≡ pos weekly) × (2 ≤ weekly))

Classifies : Classified → Type 0
Classifies (rejected errors) = errors ≢ []
Classifies (accepted s below) = InBounds s × (below ≡ [] → IsFree s)

verdict_on-lem :
    (errors below : List String) (settings : Option Settings)
    → (errors ≡ [] → (s : Settings) × (settings ≡ some s) × InBounds s × (below ≡ [] → IsFree s))
    → Classifies (verdict_on errors below settings)
unfolding Classifies
verdict_on-lem [] below none h = (let (s, e, within, free) = h refl in absurd (ground arith))
verdict_on-lem [] below (some settings) h =
    let (s, e, within, free) = h refl in
    let same : s ≡ settings = ground arith in
    subst (λ x. InBounds x × (below ≡ [] → IsFree x)) same (within, free)
verdict_on-lem (x ∷ errors) below settings h = λ e. ground arith

settings_of-some :
    (daily weekly monthly : Option ℤ) (time : String) (d w m : ℤ)
    → daily ≡ some d
    → weekly ≡ some w
    → monthly ≡ some m
    → settings_of daily weekly monthly time
      ≡ some (record { keep_daily = d; keep_weekly = w; keep_monthly = m; time = time })
settings_of-some daily weekly monthly time d w m ed ew em = rw (ed, ew, em) refl

classify_values-Classifies :
    (daily weekly monthly : Option ℤ) (time : String)
    → Classifies (classify_values daily weekly monthly time)
classify_values-Classifies daily weekly monthly time =
    let d = check_field "keep_daily" daily_bounds daily in
    let w = check_field "keep_weekly" weekly_bounds weekly in
    let m = check_field "keep_monthly" monthly_bounds monthly in
    verdict_on-lem _ (d.1 ++ (w.1 ++ m.1)) _ (λ e.
      let (ed, e1) = ++-nil d.0 (w.0 ++ (m.0 ++ check_time time)) e in
      let (ew, e2) = ++-nil w.0 (m.0 ++ check_time time) e1 in
      let (em, et) = ++-nil m.0 (check_time time) e2 in
      let (nd, vd, low, high, free) = check_field-lem "keep_daily" daily_bounds daily ed in
      let (nw, vw, low_w, high_w, free_w) = check_field-lem "keep_weekly" weekly_bounds weekly ew in
      let (nm, vm, low_m, high_m, free_m) =
        check_field-lem "keep_monthly" monthly_bounds monthly em in
      (
        record { keep_daily = pos nd; keep_weekly = pos nw; keep_monthly = pos nm; time = time },
        settings_of-some daily weekly monthly time (pos nd) (pos nw) (pos nm) vd vw vm,
        ((nd, refl, low, high), (nw, refl, high_w), (nm, refl, high_m), check_time-lem time et),
        λ none_below.
            let (fd, f1) = ++-nil d.1 (w.1 ++ m.1) none_below in
            let (fw, fm) = ++-nil w.1 m.1 f1 in ((nd, refl, free fd), (nw, refl, free_w fw)),
      ))

-- What a decision promises.
pub IsSafe : Bool → Decision → Type 0
IsSafe valid (refused errors) = errors ≢ []
IsSafe valid (needs_approval reasons) = (valid ≡ false) × (reasons ≢ [])
IsSafe valid (apply s approved below) =
    InBounds s × (((approved ≡ true) × (valid ≡ true)) ⊎ ((approved ≡ false) × IsFree s))

decide_classified-IsSafe :
    (c : Classified) (valid : Bool) → Classifies c → IsSafe valid (decide_classified c valid)
unfolding Classifies IsSafe
decide_classified-IsSafe (rejected errors) valid h = h
decide_classified-IsSafe (accepted s []) valid (within, free) = (within, inr (refl, free refl))
decide_classified-IsSafe (accepted s (x ∷ below)) true (within, free) = (within, inl (refl, refl))
decide_classified-IsSafe (accepted s (x ∷ below)) false (within, free) = (refl, λ e. ground arith)

-- Whatever JSON values a change of the retention has: if it is applied, then it keeps 1 to 30 daily, 0
-- to 12 weekly and 0 to 24 monthly archives, whole numbers, at a time from 04:00 to 22:00; with fewer
-- than 3 daily or 2 weekly archives it is applied only with a valid approval.
-- A change that is refused has an error, and one that needs an approval had none.
pub decide_retention_change-IsSafe :
    (input : Fields) (valid : Bool) → IsSafe valid (decide_retention_change input valid)
unfolding decide_retention_change classify_retention
decide_retention_change-IsSafe input valid =
    decide_classified-IsSafe (classify_retention input) valid (
      classify_values-Classifies (integer (lookup "keepDaily" input))
        (integer (lookup "keepWeekly" input)) (integer (lookup "keepMonthly" input))
        (time_of (as_string (lookup "time" input))))
