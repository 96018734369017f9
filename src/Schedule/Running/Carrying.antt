-- ===== src/Schedule/Running/Carrying.antt =====
-- apps/api/src/app.ts: what the steps of the scheduler leave alone, and when the plan of a schedule is
-- dispatched.
use mathlib.Core.Path.{subst}
use wireguard_ops_cockpit.Base.{
  ℕ, ◌≡◌, refl, sym, ap, ◌∙◌, String, true, false, Option, some, List, [], ◌∷◌, ◌&&◌, if-cases,
  arith, ◌⊎◌, inl, inr, string_eq, option_eq,
}
use wireguard_ops_cockpit.Base.Actions.{Action, pure}
use wireguard_ops_cockpit.Base.Json.{Json, str}
use wireguard_ops_cockpit.Plan.{Config, World, audit, input_text}
use wireguard_ops_cockpit.Plan.Creating.{
  create_runbook_plan, runbook_plan, runbook_payload, insert_plan, is_blocked, created_audit,
  PlanOptions, scheduled,
}
use wireguard_ops_cockpit.Plan.Dispatching.{
  DispatchesIn, StartsIn, execute_runbook_plan-DispatchesIn,
}
use wireguard_ops_cockpit.Plan.Executing.{execute_runbook_plan, session_of_plan}
use wireguard_ops_cockpit.Plan.Inner.{
  IsInner, pure-IsInner, after-IsInner, bind-IsInner, audit-IsInner, store_or_throw-IsInner,
}
use wireguard_ops_cockpit.Plan.Quiet.{
  IsQuiet, pure-IsQuiet, bind-IsQuiet, IsInner-IsQuiet, create_pending_approval_for_plan-IsQuiet,
  create_ready_plan_record-IsInner, create_blocked_plan_record-IsInner,
}
use wireguard_ops_cockpit.Plan.Reviewing.{risk_text}
use wireguard_ops_cockpit.Registry.{Runbook}
use wireguard_ops_cockpit.Registry.Encoding.{compute_runbook_version_hash, str_or_null}
use wireguard_ops_cockpit.Schedule.Requests.{patch_schedule, next_run, is_auto}
use wireguard_ops_cockpit.Schedule.Running.{
  Target, is_passed, pause_schedule, carry_blocked, carry_pending, carry_executed, carry_ready,
  carry_plan, advance_schedule, run_schedule, pause_changed, pause_high_risk, pause_unresolved,
}
use wireguard_ops_cockpit.Store.{PlanRow, SessionRow, ScheduleRow, Review}
use wireguard_ops_cockpit.Store.Accounts.{Actor, summary}
use wireguard_ops_cockpit.Store.Audits.{create_audit}
use wireguard_ops_cockpit.Store.Plans.{create_execution_plan}
use wireguard_ops_cockpit.Store.Schedules.{SchedulePatch, get_scheduled_runbook-update}
use wireguard_ops_cockpit.Store.Sessions.{get_session_for_actor}

module _ (config : Config) (now : ℕ) where
  patch_schedule-IsInner :
      (id : String) (input : SchedulePatch) → IsInner (patch_schedule now id input)
  unfolding patch_schedule
  patch_schedule-IsInner id input = store_or_throw-IsInner _ _ (λ db db' row e.
      ap (λ d. d.approvals) (get_scheduled_runbook-update db db' id id now input row e).2)

  pause_schedule-IsInner :
      (id : String) (actor_id : Option String) (summary : String) (details : List (String × Json))
      → IsInner (pause_schedule config now id actor_id summary details)
  unfolding pause_schedule
  pause_schedule-IsInner id actor_id summary details =
      bind-IsInner _ _ (patch_schedule-IsInner id _)
        (λ schedule. bind-IsInner _ _ (audit-IsInner config now _) (λ t. pure-IsInner _))

  carry_blocked-IsQuiet :
      (schedule : ScheduleRow) (target : Target) (plan : PlanRow)
      → IsQuiet (carry_blocked config now schedule target plan)
  unfolding carry_blocked
  carry_blocked-IsQuiet schedule target plan = IsInner-IsQuiet _ (
      bind-IsInner _ _ (create_blocked_plan_record-IsInner config now plan target.actor _) (λ job.
        bind-IsInner _ _ (pause_schedule-IsInner schedule.id _ _ _) (λ row. pure-IsInner _)))

  carry_pending-IsQuiet :
      (target : Target) (plan : PlanRow) → IsQuiet (carry_pending config now target plan)
  unfolding carry_pending
  carry_pending-IsQuiet target plan =
      bind-IsQuiet _ _ (create_pending_approval_for_plan-IsQuiet config now plan target.actor _)
        (λ waiting. pure-IsQuiet _)

  carry_ready-IsQuiet :
      (target : Target) (plan : PlanRow) → IsQuiet (carry_ready config now target plan)
  unfolding carry_ready
  carry_ready-IsQuiet target plan = IsInner-IsQuiet _ (
      bind-IsInner _ _ (create_ready_plan_record-IsInner config now plan target.actor _)
        (λ job. pure-IsInner _))

  next_run-IsInner :
      (weekday : ℕ) (time_utc : String) (from : ℕ) → IsInner (next_run weekday time_utc from)
  unfolding next_run IsInner
  next_run-IsInner weekday time_utc from w = refl

  advance_schedule-IsInner :
      (schedule : ScheduleRow) (actor : Actor) (executed_at : Option ℕ)
      → IsInner (advance_schedule config now schedule actor executed_at)
  unfolding advance_schedule
  advance_schedule-IsInner schedule actor executed_at =
      bind-IsInner _ _ (next_run-IsInner schedule.weekday schedule.time_utc _) (λ next.
        bind-IsInner _ _ (patch_schedule-IsInner schedule.id _) (λ row. audit-IsInner config now _))

  pub pause_unresolved-IsQuiet :
      (schedule : ScheduleRow) (actor : Option Actor) (found : Option Runbook)
      (session : Option SessionRow)
      → IsQuiet (pause_unresolved config now schedule actor found session)
  unfolding pause_unresolved
  pause_unresolved-IsQuiet schedule actor found session =
      IsInner-IsQuiet _
        (bind-IsInner _ _ (pause_schedule-IsInner schedule.id _ _ _) (λ row. pure-IsInner _))

  pub pause_changed-IsQuiet :
      (schedule : ScheduleRow) (target : Target) (current : String)
      → IsQuiet (pause_changed config now schedule target current)
  unfolding pause_changed
  pause_changed-IsQuiet schedule target current =
      IsInner-IsQuiet _
        (bind-IsInner _ _ (pause_schedule-IsInner schedule.id _ _ _) (λ row. pure-IsInner _))

  pub pause_high_risk-IsQuiet :
      (schedule : ScheduleRow) (target : Target)
      → IsQuiet (pause_high_risk config now schedule target)
  unfolding pause_high_risk
  pause_high_risk-IsQuiet schedule target =
      IsInner-IsQuiet _
        (bind-IsInner _ _ (pause_schedule-IsInner schedule.id _ _ _) (λ row. pure-IsInner _))

  carry_executed-launched :
      (target : Target) (plan : PlanRow) (w : World)
      → (carry_executed config now target plan w).1.launched
        ≡ (execute_runbook_plan config now plan target.actor target.runbook w).1.launched
  unfolding carry_executed
  carry_executed-launched target plan w =
      ap (λ o. o.0)
        (after-IsInner (execute_runbook_plan config now plan target.actor target.runbook)
          (λ executed. pure (some now)) w (λ executed. pure-IsInner (some now)))

  carry_plan-DispatchesIn :
      (schedule : ScheduleRow) (target : Target) (plan : PlanRow) (w : World)
      → ((carry_plan config now schedule target plan w).1.launched ≡ w.launched)
        ⊎ ((is_blocked plan.status ≡ false)
            × (plan.requires_approval ≡ false)
            × (is_auto schedule.effective_mode ≡ true)
            × (is_passed plan.safety_review.verdict ≡ true)
            × DispatchesIn plan w (carry_plan config now schedule target plan w).1.launched)
  unfolding carry_plan IsQuiet
  carry_plan-DispatchesIn schedule target plan w =
      let Goal : Action World (Option ℕ) → Type 0 = λ m.
        ((m w).1.launched ≡ w.launched)
        ⊎ ((is_blocked plan.status ≡ false)
            × (plan.requires_approval ≡ false)
            × (is_auto schedule.effective_mode ≡ true)
            × (is_passed plan.safety_review.verdict ≡ true)
            × DispatchesIn plan w (m w).1.launched) in
      if-cases Goal (is_blocked plan.status) _ _
        (λ blocked. inl (carry_blocked-IsQuiet schedule target plan w))
        (λ allowed.
          if-cases Goal plan.requires_approval _ _
            (λ waits. inl (carry_pending-IsQuiet target plan w))
            (λ free.
              if-cases Goal
                (is_auto schedule.effective_mode && is_passed plan.safety_review.verdict) _ _
                (λ dispatched. inr (
                  allowed,
                  free,
                  ground arith,
                  ground arith,
                  subst (DispatchesIn plan w) (sym (carry_executed-launched target plan w)) (
                      execute_runbook_plan-DispatchesIn config now plan target.actor w
                        target.runbook),
                ))
                (λ held. inl (carry_ready-IsQuiet target plan w))))

  -- A planned schedule starts a command only if it may dispatch by itself and the review has passed.
  pub run_schedule-starts :
      (schedule : ScheduleRow) (target : Target) (safety : Review) (w : World)
      → get_session_for_actor w.db target.session.id target.actor.id ≡ some target.session
      → ((run_schedule config now schedule target safety w).1.launched ≡ w.launched)
        ⊎ ((is_auto schedule.effective_mode ≡ true)
            × (is_passed safety.verdict ≡ true)
            × StartsIn target.session.tmux_session_name w.launched
                (run_schedule config now schedule target safety w).1.launched)
  unfolding run_schedule create_runbook_plan insert_plan audit runbook_plan runbook_payload
      session_of_plan get_session_for_actor create_audit create_execution_plan
  run_schedule-starts schedule target safety w owned =
      let options : PlanOptions = record {
        trigger = scheduled;
        auto_dispatch = is_auto schedule.effective_mode;
        schedule_id = some schedule.id;
      } in
      let version = compute_runbook_version_hash config.digest w.registry target.runbook in
      let plan =
        runbook_plan config now target.actor target.runbook version (some target.session) options
          safety (config.uuid w.drawn) in
      let planned =
        (create_runbook_plan config now target.actor target.runbook (some target.session) options
          safety w).1 in
      let ready =
        (audit config now
          (created_audit target.actor plan (
            ("sessionId", str target.session.id)
            ∷ ("riskClass", str (risk_text plan.risk_class))
            ∷ ("runbookVersionHash", str_or_null (input_text "runbookVersionHash" plan))
            ∷ ("scheduleId", str schedule.id)
            ∷ ("trigger", str "scheduled")
            ∷ []))
          planned).1 in
      let same =
        ap (λ o. o.0)
          (after-IsInner (carry_plan config now schedule target plan)
            (λ executed_at. advance_schedule config now schedule target.actor executed_at) ready
            (λ executed_at. advance_schedule-IsInner schedule target.actor executed_at)) in
      elim (carry_plan-DispatchesIn schedule target plan ready) [
        | inl idle ↦ inl (same ∙ idle)
        | inr (allowed, free, auto, passed, inl idle) ↦ inl (same ∙ idle)
        | inr (allowed, free, auto, passed, inr (other, found, starts)) ↦
            let session_same : other ≡ target.session = ground (arith, sym found ∙ owned) in
            inr (
              auto,
              passed,
              subst (StartsIn target.session.tmux_session_name w.launched) (sym same) (
                  subst
                    (λ (s : SessionRow).
                      StartsIn s.tmux_session_name w.launched
                        (carry_plan config now schedule target plan ready).1.launched)
                    session_same starts),
            )
      ]
