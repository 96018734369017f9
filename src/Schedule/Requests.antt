-- ===== src/Schedule/Requests.antt =====
-- apps/api/src/app.ts: POST /api/schedules, POST /api/schedules/:scheduleId/activate, and
-- POST /api/schedules/:scheduleId/pause.
use wireguard_ops_cockpit.Base.{
  ℕ, String, Bool, true, false, Option, none, some, [], ◌∷◌, ◌==◌, ◌&&◌, leb, find, if◌then◌else◌,
  string_eq, option_eq,
}
use wireguard_ops_cockpit.Base.Actions.{Action, pure, or_throw, or_return, ◌>>=◌, ◌>>◌}
use wireguard_ops_cockpit.Base.Json.{str, num, fields}
use wireguard_ops_cockpit.Plan.{Config, World, Database, audit, new_id, store, store_or_throw}
use wireguard_ops_cockpit.Plan.Reviewing.{is_high_risk_runbook}
use wireguard_ops_cockpit.Plan.Requests.{given}
use wireguard_ops_cockpit.Registry.{Runbook, find_runbook}
use wireguard_ops_cockpit.Registry.Encoding.{compute_runbook_version_hash}
use wireguard_ops_cockpit.Schedule.{compute_next_weekly_run_at, validate_time_utc}
use wireguard_ops_cockpit.Store.{
  ScheduleRow, ScheduleMode, scheduled_plan_only, scheduled_auto, ScheduleStatus, SessionRow,
}
use wireguard_ops_cockpit.Store.Accounts.{Actor}
use wireguard_ops_cockpit.Store.Schedules.{
  SchedulePatch, create_scheduled_runbook, update_scheduled_runbook,
}
use wireguard_ops_cockpit.Store.Sessions.{get_session_for_actor}

pub record ScheduleReply : Type 0 where
  pub code : ℕ
  pub message : String
  pub schedule : Option ScheduleRow

abbrev pub schedule_refused : ℕ → String → ScheduleReply
schedule_refused code message = record { code = code; message = message; schedule = none }

abbrev pub schedule_reply : ℕ → ScheduleRow → ScheduleReply
schedule_reply code row = record { code = code; message = ""; schedule = some row }

-- The body: `none` for a field that is not there, or of another type.
pub record ScheduleBody : Type 0 where
  pub runbook_id : Option String
  pub session_id : Option String
  pub weekday : Option ℕ
  pub time_utc : Option String
  pub mode : Option String

abbrev pub mode_text : ScheduleMode → String
mode_text scheduled_plan_only = "scheduled-plan-only"
mode_text scheduled_auto = "scheduled-auto"

-- `body.mode || "scheduled-plan-only"`, if it is one of the two modes
unfoldable pub requested_mode : Option String → Option ScheduleMode
requested_mode none = some scheduled_plan_only
requested_mode (some mode) =
    if mode == ""
    then some scheduled_plan_only
    else if mode == "scheduled-plan-only"
    then some scheduled_plan_only
    else if mode == "scheduled-auto"
    then some scheduled_auto
    else none

abbrev pub is_auto : ScheduleMode → Bool
is_auto scheduled_auto = true
is_auto scheduled_plan_only = false

unfoldable pub validate_weekday : Option ℕ → Option ℕ
validate_weekday none = none
validate_weekday (some day) = if leb day 6 then some day else none

-- The text, if it is a time of the day.
unfoldable pub valid_time : Option String → Option String
valid_time none = none
valid_time (some text) = elim (validate_time_utc text) [ none ↦ none | some clock ↦ some text ]

abbrev pub no_schedule_patch : SchedulePatch
no_schedule_patch = record {
  requested_mode = none;
  effective_mode = none;
  status = none;
  runbook_version_hash = none;
  last_planned_at = none;
  last_run_at = none;
  next_run_at = none;
}

-- `getScheduledRunbookForActor`
unfoldable pub get_scheduled_runbook_for_actor : Database → String → String → Option ScheduleRow
get_scheduled_runbook_for_actor db id actor_id =
    find (λ (s : ScheduleRow). s.id == id && s.owner_id == actor_id) db.schedules

unfoldable pub patch_schedule : ℕ → String → SchedulePatch → Action World ScheduleRow
patch_schedule now id input =
    store_or_throw "scheduled runbook not found" (λ db. update_scheduled_runbook db id now input)

-- `computeNextWeeklyRunAt` throws on a text that is no time of the day.
unfoldable pub next_run : ℕ → String → ℕ → Action World ℕ
next_run weekday time_utc from =
    or_throw "Invalid time value" (λ w. compute_next_weekly_run_at weekday time_utc from)

module _ (config : Config) (now : ℕ) where
  unfoldable pub insert_schedule :
      Actor → Runbook → SessionRow → ℕ → String → ScheduleMode → Action World ScheduleReply
  insert_schedule actor runbook session weekday time_utc mode w =
      (do
        next ← next_run weekday time_utc now
        id ← new_id config now
        schedule ← store (λ db. create_scheduled_runbook db id now (record {
          owner_id = actor.id;
          runbook_id = runbook.id;
          session_id = session.id;
          weekday = weekday;
          time_utc = time_utc;
          timezone = "UTC";
          requested_mode = mode;
          effective_mode = mode;
          status = ScheduleStatus.draft;
          runbook_version_hash = compute_runbook_version_hash config.digest w.registry runbook;
          next_run_at = next;
        }))
        audit config now (record {
          actor_id = some actor.id;
          action = "schedule.created";
          target_type = "scheduled-runbook";
          target_id = some schedule.id;
          details = fields (
              ("runbookId", str schedule.runbook_id)
              ∷ ("sessionId", str schedule.session_id)
              ∷ ("requestedMode", str (mode_text schedule.requested_mode))
              ∷ ("nextRunAt", num schedule.next_run_at)
              ∷ []);
        })
        pure (schedule_reply 201 schedule))
        w

  unfoldable pub create_schedule : Actor → ScheduleBody → Action World ScheduleReply
  create_schedule actor body w =
      let incomplete =
        schedule_refused 400 "runbookId, sessionId, weekday, and timeUtc are required" in
      or_return incomplete (given body.runbook_id)
        (λ runbook_id. or_return incomplete (given body.session_id) (λ session_id.
          or_return incomplete (validate_weekday body.weekday) (λ weekday.
            or_return incomplete (valid_time body.time_utc) (λ time_utc.
              or_return (schedule_refused 400 "mode must be scheduled-plan-only or scheduled-auto")
                (requested_mode body.mode)
                (λ mode.
                  or_return (schedule_refused 404 "runbook not found")
                    (find_runbook w.registry runbook_id)
                    (λ runbook.
                      if is_auto mode && is_high_risk_runbook runbook
                      then pure (
                          schedule_refused 400
                            "high-risk runbooks can only use scheduled-plan-only")
                      else or_return (schedule_refused 404 "session not found")
                          (get_session_for_actor w.db session_id actor.id)
                          (λ session.
                            insert_schedule actor runbook session weekday time_utc mode)))))))
        w

  unfoldable pub activate_schedule : Actor → String → Action World ScheduleReply
  activate_schedule actor id w =
      let unresolved = schedule_refused 409 "schedule target no longer resolves" in
      or_return (schedule_refused 404 "schedule not found")
        (get_scheduled_runbook_for_actor w.db id actor.id)
        (λ schedule. or_return unresolved (find_runbook w.registry schedule.runbook_id) (λ runbook.
          or_return unresolved (get_session_for_actor w.db schedule.session_id actor.id) (λ session.
            (do
              next ← next_run schedule.weekday schedule.time_utc now
              activated ← patch_schedule now schedule.id (record no_schedule_patch {
                status = some ScheduleStatus.active;
                runbook_version_hash =
                    some (compute_runbook_version_hash config.digest w.registry runbook);
                next_run_at = some next;
              })
              audit config now (record {
                actor_id = some actor.id;
                action = "schedule.activated";
                target_type = "scheduled-runbook";
                target_id = some activated.id;
                details = fields (
                    ("effectiveMode", str (mode_text activated.effective_mode))
                    ∷ ("nextRunAt", num activated.next_run_at)
                    ∷ ("runbookVersionHash", str activated.runbook_version_hash)
                    ∷ []);
              })
              pure (schedule_reply 200 activated)))))
        w

  unfoldable pub pause_requested : Actor → String → Action World ScheduleReply
  pause_requested actor id w =
      or_return (schedule_refused 404 "schedule not found")
        (get_scheduled_runbook_for_actor w.db id actor.id)
        (λ schedule. (do
          paused ←
              patch_schedule now schedule.id
                (record no_schedule_patch { status = some ScheduleStatus.paused })
          audit config now (record {
            actor_id = some actor.id;
            action = "schedule.paused";
            target_type = "scheduled-runbook";
            target_id = some paused.id;
            details = fields (("effectiveMode", str (mode_text paused.effective_mode)) ∷ []);
          })
          pure (schedule_reply 200 paused)))
        w
