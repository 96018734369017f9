-- ===== src/Store/Schedules.antt =====
-- db.ts: the table of the scheduled runbooks.
use mathlib.Core.Option
use wireguard_ops_cockpit.Base.{
  ℕ, ◌/◌, zero, suc, ◌≡◌, ◌≢◌, refl, String, Bool, true, false, Option, none, some, List, [], ◌∷◌,
  ◌==◌, ◌&&◌, leb, arith, filter, All, length, ◌≤◌, string_eq, Option-cases, inl, inr,
}
use wireguard_ops_cockpit.Base.Options.{◌>>=◌}
use wireguard_ops_cockpit.Base.Sorting.{sort_by, All-sort_by}
use wireguard_ops_cockpit.Base.Tables.{
  limit, update, insert, by_key, by_key-update_self, by_key-update_ne,
}
use wireguard_ops_cockpit.Store.{Db, ScheduleRow, ScheduleMode, ScheduleStatus, active}

abbrev pub schedule_id : ScheduleRow → String
schedule_id s = s.id

abbrev pub is_active : ScheduleStatus → Bool
is_active active = true
is_active _ = false

-- The input of `createScheduledRunbook`.
pub record NewSchedule : Type 0 where
  pub owner_id : String
  pub runbook_id : String
  pub session_id : String
  pub weekday : ℕ
  pub time_utc : String
  pub timezone : String
  pub requested_mode : ScheduleMode
  pub effective_mode : ScheduleMode
  pub status : ScheduleStatus
  pub runbook_version_hash : String
  pub next_run_at : ℕ

-- The input of `updateScheduledRunbook`: `none` for what is left out.
pub record SchedulePatch : Type 0 where
  pub requested_mode : Option ScheduleMode
  pub effective_mode : Option ScheduleMode
  pub status : Option ScheduleStatus
  pub runbook_version_hash : Option String
  pub last_planned_at : Option (Option ℕ)
  pub last_run_at : Option (Option ℕ)
  pub next_run_at : Option ℕ

abbrev pub new_schedule : String → ℕ → NewSchedule → ScheduleRow
new_schedule id now input = record {
  id = id;
  owner_id = input.owner_id;
  runbook_id = input.runbook_id;
  session_id = input.session_id;
  weekday = input.weekday;
  time_utc = input.time_utc;
  timezone = input.timezone;
  requested_mode = input.requested_mode;
  effective_mode = input.effective_mode;
  status = input.status;
  runbook_version_hash = input.runbook_version_hash;
  last_planned_at = none;
  last_run_at = none;
  next_run_at = input.next_run_at;
  created_at = now;
  updated_at = now;
}

abbrev pub patched_schedule : SchedulePatch → ℕ → ScheduleRow → ScheduleRow
patched_schedule input now s = record s {
  requested_mode = Option.get_or input.requested_mode s.requested_mode;
  effective_mode = Option.get_or input.effective_mode s.effective_mode;
  status = Option.get_or input.status s.status;
  runbook_version_hash = Option.get_or input.runbook_version_hash s.runbook_version_hash;
  last_planned_at = Option.get_or input.last_planned_at s.last_planned_at;
  last_run_at = Option.get_or input.last_run_at s.last_run_at;
  next_run_at = Option.get_or input.next_run_at s.next_run_at;
  updated_at = now;
}

-- Active, and due in whole seconds.
abbrev pub is_due : ℕ → ScheduleRow → Bool
is_due before s = is_active s.status && leb (s.next_run_at / 1000) (before / 1000)

module _ {O : Type 0} where
  unfoldable pub create_scheduled_runbook : Db O → String → ℕ → NewSchedule → Db O × ScheduleRow
  create_scheduled_runbook db id now input = (
    record db { schedules = insert (new_schedule id now input) db.schedules },
    new_schedule id now input,
  )

  unfoldable pub get_scheduled_runbook : Db O → String → Option ScheduleRow
  get_scheduled_runbook db id = by_key schedule_id id db.schedules

  unfoldable pub list_due_scheduled_runbooks : Db O → ℕ → ℕ → List ScheduleRow
  unfolding sort_by
  list_due_scheduled_runbooks db before count =
      limit count (sort_by (λ s. s.next_run_at / 1000) (filter (is_due before) db.schedules))

  -- `none` is the error "scheduled runbook not found".
  unfoldable pub update_scheduled_runbook :
      Db O → String → ℕ → SchedulePatch → Option (Db O × ScheduleRow)
  unfolding get_scheduled_runbook
  update_scheduled_runbook db id now input = do
    current ← get_scheduled_runbook db id
    some (
      record db { schedules = update (λ s. s.id == id) (patched_schedule input now) db.schedules },
      patched_schedule input now current,
    )

  -- An update of a schedule changes the row of that schedule and of no other, and no other table.
  pub get_scheduled_runbook-update :
      (db db' : Db O) (id j : String) (now : ℕ) (input : SchedulePatch) (row : ScheduleRow)
      → update_scheduled_runbook db id now input ≡ some (db', row)
      → (get_scheduled_runbook db' id ≡ some row)
        × (j ≢ id → get_scheduled_runbook db' j ≡ get_scheduled_runbook db j)
        × (db' ≡ record db { schedules = db'.schedules })
  unfolding update_scheduled_runbook
  get_scheduled_runbook-update db db' id j now input row h =
      let self =
        by_key-update_self schedule_id (patched_schedule input now) (λ x. refl) id db.schedules in
      let other = by_key-update_ne schedule_id (patched_schedule input now) (λ x. refl) id j in
      elim (Option-cases (by_key schedule_id id db.schedules)) [
        | inl missing ↦ absurd (ground arith)
        | inr (current, found) ↦
            (ground arith, λ ne. (let same = other ne db.schedules in ground arith), ground arith)
      ]

-- A limit keeps what every row has, and no more rows than its number.
All-limit :
    {A : Type 0} (P : A → Type 0) (n : ℕ) (xs : List A)
    → All P xs
    → All P (limit n xs) × (length (limit n xs) ≤ n)
All-limit P zero xs all = (tt, omega arith)
All-limit P (suc n) [] all = (tt, omega arith)
All-limit P (suc n) (x ∷ xs) (p, all) =
    (let (rest, few) = All-limit P n xs all in ((p, rest), omega arith))

All-filter : {A : Type 0} (p : A → Bool) (xs : List A) → All (λ x. p x ≡ true) (filter p xs)
All-filter p [] = tt
All-filter p (x ∷ xs) = ground (arith, All-filter p xs)

-- The schedules that are taken up are at most as many as the limit, and all of them are active and due.
pub list_due_scheduled_runbooks-due :
    {O : Type 0} (db : Db O) (before count : ℕ)
    → All (λ s. is_due before s ≡ true) (list_due_scheduled_runbooks db before count)
      × (length (list_due_scheduled_runbooks db before count) ≤ count)
unfolding list_due_scheduled_runbooks
list_due_scheduled_runbooks-due db before count =
    All-limit (λ s. is_due before s ≡ true) count _
      (All-sort_by (λ s. s.next_run_at / 1000) (λ s. is_due before s ≡ true)
        (filter (is_due before) db.schedules) (All-filter (is_due before) db.schedules))
