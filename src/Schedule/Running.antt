-- ===== src/Schedule/Running.antt =====
-- apps/api/src/app.ts, `processDueScheduledRunbooks`: the due schedules are planned, and dispatched
-- where they may be. The safety review of each runbook is an argument; `locks` are the schedules that
-- another run of the loop still holds.
pub mod Carrying
pub mod Laws
mod Tests
use mathlib.Core.Option
use wireguard_ops_cockpit.Base.{
  ℕ, ◌+◌, String, Bool, true, false, Option, none, some, List, [], ◌∷◌, ◌==◌, ◌!=◌, ◌&&◌, not, any,
  if◌then◌else◌, string_eq,
}
use wireguard_ops_cockpit.Base.Actions.{Action, pure, ◌>>=◌, ◌>>◌}
use wireguard_ops_cockpit.Base.Json.{Json, str, num, bool, null, fields, lookup}
use wireguard_ops_cockpit.Base.Text.{joined}
use wireguard_ops_cockpit.Plan.{Config, World, audit, input_text}
use wireguard_ops_cockpit.Plan.Creating.{
  PlanOptions, Trigger, scheduled, create_runbook_plan, is_blocked, created_audit,
}
use wireguard_ops_cockpit.Plan.Executing.{execute_runbook_plan}
use wireguard_ops_cockpit.Plan.Recording.{
  create_pending_approval_for_plan, create_ready_plan_record, create_blocked_plan_record,
}
use wireguard_ops_cockpit.Plan.Reviewing.{
  is_high_risk_runbook, risk_text, target_text, verdict_text,
}
use wireguard_ops_cockpit.Registry.{Runbook, find_runbook}
use wireguard_ops_cockpit.Registry.Encoding.{compute_runbook_version_hash, str_or_null}
use wireguard_ops_cockpit.Schedule.Requests.{
  patch_schedule, no_schedule_patch, next_run, is_auto, mode_text,
}
use wireguard_ops_cockpit.Store.{PlanRow, ScheduleRow, ScheduleStatus, SessionRow, Review, Verdict}
use wireguard_ops_cockpit.Store.Accounts.{Actor, get_user_by_id}
use wireguard_ops_cockpit.Store.Schedules.{list_due_scheduled_runbooks}
use wireguard_ops_cockpit.Store.Sessions.{get_session_for_actor}

abbrev pub is_there : {A : Type 0} → Option A → Json
is_there none = bool false
is_there (some a) = bool true

abbrev pub is_passed : Verdict → Bool
is_passed Verdict.passed = true
is_passed _ = false

abbrev pub is_not_run : Verdict → Bool
is_not_run Verdict.not_run = true
is_not_run _ = false

-- What a schedule needs: its owner, its runbook, its session.
pub record Target : Type 0 where
  pub actor : Actor
  pub runbook : Runbook
  pub session : SessionRow

abbrev pub target_of : Option Actor → Option Runbook → Option SessionRow → Option Target
target_of (some actor) (some runbook) (some session) =
    some (record { actor = actor; runbook = runbook; session = session })
target_of _ _ _ = none

module _ (config : Config) (now : ℕ) where
  unfoldable pub pause_schedule :
      String → Option String → String → List (String × Json) → Action World ScheduleRow
  pause_schedule id actor_id summary details = do
    schedule ←
        patch_schedule now id (record no_schedule_patch { status = some ScheduleStatus.paused })
    audit config now (record {
      actor_id = actor_id;
      action = "schedule.paused";
      target_type = "scheduled-runbook";
      target_id = some schedule.id;
      details = fields (wireguard_ops_cockpit.Base.◌++◌ details (("summary", str summary) ∷ []));
    })
    pure schedule

  unfoldable pub carry_blocked : ScheduleRow → Target → PlanRow → Action World (Option ℕ)
  carry_blocked schedule target plan = do
    create_blocked_plan_record config now plan target.actor (
        joined (
          target.runbook.name
          ∷ " was generated by a weekly schedule but the safety review blocked dispatch." ∷ []))
    pause_schedule schedule.id (some target.actor.id)
        "Scheduled runbook paused because the safety review blocked the reviewed runbook version."
        (("runbookId", str target.runbook.id)
          ∷ ("runbookVersionHash", str_or_null (input_text "runbookVersionHash" plan))
          ∷ ("safetyVerdict", str (verdict_text plan.safety_review.verdict))
          ∷ [])
    pure none

  unfoldable pub carry_pending : Target → PlanRow → Action World (Option ℕ)
  carry_pending target plan = do
    create_pending_approval_for_plan config now plan target.actor (
        joined (
          target.runbook.name
          ∷ " was generated by a weekly schedule and requires human approval before dispatch."
          ∷ []))
    pure none

  unfoldable pub carry_executed : Target → PlanRow → Action World (Option ℕ)
  carry_executed target plan = do
    execute_runbook_plan config now plan target.actor target.runbook
    pure (some now)

  unfoldable pub carry_ready : Target → PlanRow → Action World (Option ℕ)
  carry_ready target plan = do
    create_ready_plan_record config now plan target.actor (
        joined (
          target.runbook.name
          ∷ (if is_not_run plan.safety_review.verdict
              then " was generated by a weekly schedule, but the safety report is incomplete and needs operator review."
              else " was generated by a weekly schedule and is ready for operator review.")
          ∷ []))
    pure none

  -- What becomes of a schedule's plan: the time of its dispatch, if it was dispatched.
  unfoldable pub carry_plan : ScheduleRow → Target → PlanRow → Action World (Option ℕ)
  carry_plan schedule target plan =
      if is_blocked plan.status
      then carry_blocked schedule target plan
      else if plan.requires_approval
      then carry_pending target plan
      else if is_auto schedule.effective_mode && is_passed plan.safety_review.verdict
      then carry_executed target plan
      else carry_ready target plan

  -- The next time of the schedule, and the audit.
  unfoldable pub advance_schedule : ScheduleRow → Actor → Option ℕ → Action World (Unit {0})
  advance_schedule schedule actor executed_at = do
    next ← next_run schedule.weekday schedule.time_utc (schedule.next_run_at + 1000)
    updated ← patch_schedule now schedule.id (record no_schedule_patch {
      last_planned_at = some (some now);
      last_run_at = some executed_at;
      next_run_at = some next;
    })
    audit config now (record {
      actor_id = some actor.id;
      action = "schedule.triggered";
      target_type = "scheduled-runbook";
      target_id = some updated.id;
      details = fields (
          ("effectiveMode", str (mode_text updated.effective_mode))
          ∷ ("executedAt", elim executed_at [ none ↦ null | some at ↦ num at ])
          ∷ ("nextRunAt", num updated.next_run_at)
          ∷ ("runbookId", str updated.runbook_id)
          ∷ []);
    })

  -- A schedule whose target is there, unchanged and allowed: it is planned.
  unfoldable pub run_schedule : ScheduleRow → Target → Review → Action World (Unit {0})
  run_schedule schedule target safety = do
    plan ←
        create_runbook_plan config now target.actor target.runbook (some target.session)
          (record {
            trigger = scheduled;
            auto_dispatch = is_auto schedule.effective_mode;
            schedule_id = some schedule.id;
          })
          safety
    audit config now (
        created_audit target.actor plan (
          ("sessionId", str target.session.id)
          ∷ ("riskClass", str (risk_text plan.risk_class))
          ∷ ("runbookVersionHash", str_or_null (input_text "runbookVersionHash" plan))
          ∷ ("scheduleId", str schedule.id)
          ∷ ("trigger", str "scheduled")
          ∷ []))
    executed_at ← carry_plan schedule target plan
    advance_schedule schedule target.actor executed_at

  unfoldable pub pause_changed : ScheduleRow → Target → String → Action World (Unit {0})
  pause_changed schedule target current = do
    pause_schedule schedule.id (some target.actor.id)
        "Scheduled runbook paused because the reviewed runbook version changed."
        (("expectedRunbookVersionHash", str schedule.runbook_version_hash)
          ∷ ("currentRunbookVersionHash", str current)
          ∷ [])
    pure tt

  unfoldable pub pause_high_risk : ScheduleRow → Target → Action World (Unit {0})
  pause_high_risk schedule target = do
    pause_schedule schedule.id (some target.actor.id)
        "Scheduled runbook paused because high-risk runbooks cannot auto-dispatch in this slice."
        (("effectiveMode", str (mode_text schedule.effective_mode))
          ∷ ("runbookId", str target.runbook.id)
          ∷ [])
    pure tt

  unfoldable pub pause_unresolved :
      ScheduleRow → Option Actor → Option Runbook → Option SessionRow → Action World (Unit {0})
  pause_unresolved schedule actor found session = do
    pause_schedule schedule.id (Option.map (λ (a : Actor). a.id) actor)
        "Scheduled runbook paused because actor, runbook, or session no longer resolves."
        (("actorFound", is_there actor)
          ∷ ("runbookFound", is_there found)
          ∷ ("sessionFound", is_there session)
          ∷ [])
    pure tt

  unfoldable pub check_schedule : ScheduleRow → Target → String → Review → Action World (Unit {0})
  check_schedule schedule target current safety =
      if current != schedule.runbook_version_hash
      then pause_changed schedule target current
      else if is_high_risk_runbook target.runbook && is_auto schedule.effective_mode
      then pause_high_risk schedule target
      else run_schedule schedule target safety

  unfoldable pub process_target :
      ScheduleRow
      → Option Actor
      → Option Runbook
      → Option SessionRow
      → Review
      → Action World (Unit {0})
  process_target schedule actor found session safety w = elim (target_of actor found session) [
    | some target ↦
        check_schedule schedule target
          (compute_runbook_version_hash config.digest w.registry target.runbook) safety w
    | none ↦ pause_unresolved schedule actor found session w
  ]

  unfoldable pub process_schedule : ScheduleRow → Review → Action World (Unit {0})
  process_schedule schedule safety w =
      process_target schedule (get_user_by_id w.db schedule.owner_id)
        (find_runbook w.registry schedule.runbook_id)
        (get_session_for_actor w.db schedule.session_id schedule.owner_id) safety w

  -- A schedule that throws ends the loop.
  unfoldable pub process_all :
      List String → (ScheduleRow → Review) → List ScheduleRow → Action World (Unit {0})
  process_all locks review_of [] = pure tt
  process_all locks review_of (schedule ∷ rows) =
      let rest = process_all locks review_of rows in
      if any (λ id. id == schedule.id) locks
      then rest
      else process_schedule schedule (review_of schedule) >> rest

  -- The first 25 schedules that are due.
  unfoldable pub process_due_scheduled_runbooks :
      List String → (ScheduleRow → Review) → Action World (Unit {0})
  process_due_scheduled_runbooks locks review_of w =
      process_all locks review_of (list_due_scheduled_runbooks w.db now 25) w
