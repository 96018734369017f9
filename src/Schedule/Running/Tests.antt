-- ===== src/Schedule/Running/Tests.antt =====
-- A due schedule of the owner that is dispatched without an operator.
use wireguard_ops_cockpit.Base.{◌+◌, ◌≤◌, ◌≡◌, refl, ap, none, [], ◌∷◌, length, arith}
use wireguard_ops_cockpit.Base.Json.{set_field, spread}
use wireguard_ops_cockpit.Base.Text.{joined}
use wireguard_ops_cockpit.Plan.{
  World, audit, insert_job, patch_plan, touch_session, revive_session, launch,
}
use wireguard_ops_cockpit.Plan.Creating.{
  create_runbook_plan, runbook_plan, runbook_payload, runbook_input, insert_plan,
}
use wireguard_ops_cockpit.Plan.Executing.{
  execute_runbook_plan, record_runbook, session_of_plan, runbook_dispatch_output,
}
use wireguard_ops_cockpit.Plan.Reviewing.{
  review, create_plan_hash, payload_json, resolve_runbook_plan_state, is_high_risk_runbook,
}
use wireguard_ops_cockpit.Plan.Tests.{config, passed, empty_db, world_of}
use wireguard_ops_cockpit.Registry.{find_runbook, find_script}
use wireguard_ops_cockpit.Registry.Dispatch.{
  build_runbook_dispatch, row_of, shell_quote, launch_command, is_safe_name,
}
use wireguard_ops_cockpit.Registry.Encoding.{
  compute_runbook_version_hash, runbook_json, script_json, step_json,
}
use wireguard_ops_cockpit.Schedule.{
  validate_time_utc, days_ahead, next_weekly_run, compute_next_weekly_run_at,
}
use wireguard_ops_cockpit.Schedule.Requests.{patch_schedule, next_run}
use wireguard_ops_cockpit.Schedule.Running.{
  process_target, check_schedule, run_schedule, carry_plan, carry_executed, advance_schedule,
  process_schedule, process_due_scheduled_runbooks,
}
use wireguard_ops_cockpit.Schedule.Running.Laws.{
  Scheduled, process_schedule-starts, length-process_due_scheduled_runbooks,
}
use wireguard_ops_cockpit.Store.{ScheduleRow, ScheduleMode, ScheduleStatus}
use wireguard_ops_cockpit.Store.Accounts.{get_user_by_id}
use wireguard_ops_cockpit.Store.Audits.{create_audit}
use wireguard_ops_cockpit.Store.Jobs.{create_job}
use wireguard_ops_cockpit.Store.Plans.{
  get_execution_plan, update_execution_plan, create_execution_plan,
}
use wireguard_ops_cockpit.Store.Schedules.{
  list_due_scheduled_runbooks, update_scheduled_runbook, get_scheduled_runbook,
}
use wireguard_ops_cockpit.Store.Sessions.{
  get_session_for_actor, set_session_status, set_status, record_session_activity,
}

abbrev due : ScheduleRow
due = record {
  id = "w1";
  owner_id = "u1";
  runbook_id = "disk-health-check";
  session_id = "s1";
  weekday = 4;
  time_utc = "03:30";
  timezone = "UTC";
  requested_mode = ScheduleMode.scheduled_auto;
  effective_mode = ScheduleMode.scheduled_auto;
  status = ScheduleStatus.active;
  runbook_version_hash = "version";
  last_planned_at = none;
  last_run_at = none;
  next_run_at = 12600000;
  created_at = 0;
  updated_at = 0;
}

abbrev w : World
w = world_of (record empty_db { schedules = due ∷ [] })

runs_one : length (process_schedule config 12600005 due passed w).1.launched ≡ 1
unfolding process_schedule process_target check_schedule run_schedule carry_plan carry_executed
    advance_schedule get_user_by_id patch_schedule next_run update_scheduled_runbook
    get_scheduled_runbook compute_next_weekly_run_at validate_time_utc next_weekly_run days_ahead
    create_runbook_plan runbook_plan runbook_payload runbook_input insert_plan create_execution_plan
    resolve_runbook_plan_state is_high_risk_runbook audit create_audit create_plan_hash payload_json
    find_runbook compute_runbook_version_hash runbook_json script_json step_json find_script
    patch_plan update_execution_plan get_execution_plan review execute_runbook_plan session_of_plan
    get_session_for_actor build_runbook_dispatch row_of shell_quote launch launch_command
    is_safe_name revive_session set_session_status set_status record_runbook insert_job create_job
    runbook_dispatch_output joined spread set_field touch_session record_session_activity
runs_one = refl

process_schedule-starts_example :
    Scheduled config due passed w (process_schedule config 12600005 due passed w).1.launched
process_schedule-starts_example =
    process_schedule-starts config 12600005 due passed w
      (λ same. absurd (ground (arith, runs_one, ap length same)))

length-process_due_scheduled_runbooks_example :
    (length (process_due_scheduled_runbooks config 12600005 [] (λ s. passed) w).1.launched
      ≤ length w.launched + length (list_due_scheduled_runbooks w.db 12600005 25))
    × (length (process_due_scheduled_runbooks config 12600005 [] (λ s. passed) w).1.launched
        ≤ length w.launched + 25)
length-process_due_scheduled_runbooks_example =
    length-process_due_scheduled_runbooks config 12600005 [] (λ s. passed) w
