-- ===== src/Store/Tests.antt =====
-- A database with a user, two sessions, a job, an approval and a plan.
use text.Mathlib.TextEquality.{eq_iff}
use wireguard_ops_cockpit.Base.{
  ℕ, ◌+◌, ◌*◌, ◌<◌, ◌≤◌, ◌≡◌, ◌≢◌, refl, String, false, none, some, [], ◌∷◌, map, filter, arith,
}
use wireguard_ops_cockpit.Base.Json.{end}
use wireguard_ops_cockpit.Store.{
  Db, UserRow, admin, SessionRow, active, tmux, JobRow, JobKind, JobStatus, ApprovalRow,
  ApprovalStatus, PlanRow, PlanTarget, PlanStatus, RiskClass, Verdict, Review, ScheduleStatus,
  scheduled_auto, scheduled_plan_only,
}
use wireguard_ops_cockpit.Store.Accounts.{
  summary, issue_auth_session, find_user_by_auth_token, revoke_auth_token,
}
use wireguard_ops_cockpit.Store.Accounts.Laws.{find-revoke, find-issue}
use wireguard_ops_cockpit.Store.Jobs.{get_job, JobPatch, patched, update_job}
use wireguard_ops_cockpit.Store.Plans.{
  get_execution_plan, no_patch, patched_plan, update_execution_plan,
}
use wireguard_ops_cockpit.Store.Schedules.{
  NewSchedule, SchedulePatch, new_schedule, patched_schedule, get_scheduled_runbook,
  update_scheduled_runbook,
}
use wireguard_ops_cockpit.Store.Sessions.{sync_tmux_session_status}
use wireguard_ops_cockpit.Store.Sessions.Sync.{synced, ending, sync_tmux_session_status-synced}

abbrev user : UserRow
user = record { id = "u1"; username = "jochen"; password_hash = "p"; role = admin; created_at = 0 }

abbrev session : String → SessionRow
session id = record {
  id = id;
  name = id;
  status = active;
  owner_id = some "u1";
  tmux_session_name = id;
  tmux_backend = tmux;
  terminal_url = none;
  created_at = 0;
  updated_at = 0;
  last_activity_at = 0;
}

abbrev job : JobRow ℕ
job = record {
  id = "j1";
  session_id = some "s1";
  kind = JobKind.runbook;
  subject_id = none;
  status = JobStatus.pending;
  requires_approval = false;
  approval_id = none;
  output = none;
  created_at = 0;
  updated_at = 0;
  completed_at = none;
}

abbrev approval : ApprovalRow
approval = record {
  id = "a1";
  job_id = "j1";
  status = ApprovalStatus.pending;
  requested_by = "u1";
  decided_by = none;
  reason = none;
  created_at = 0;
  decided_at = none;
}

abbrev reviewed : Review
reviewed = record { actor_id = none; verdict = Verdict.pending; summary = ""; details = end }

abbrev plan : PlanRow
plan = record {
  id = "p1";
  session_id = none;
  target_type = PlanTarget.runbook;
  target_id = "r1";
  requested_by = "u1";
  status = PlanStatus.ready;
  risk_class = RiskClass.low;
  requires_approval = false;
  approval_id = none;
  executed_job_id = none;
  plan_hash = "h";
  plan_summary = "";
  normalized_input = end;
  planner_review = reviewed;
  safety_review = reviewed;
  policy_review = reviewed;
  pre_execution_hook = reviewed;
  runtime_hook = reviewed;
  post_execution_hook = reviewed;
  created_at = 0;
  updated_at = 0;
}

abbrev db : Db ℕ
db = record {
  users = user ∷ [];
  auth_sessions = [];
  api_tokens = [];
  sessions = session "s1" ∷ session "s2" ∷ [];
  jobs = job ∷ record job { id = "j2" } ∷ [];
  approvals = approval ∷ [];
  audits = [];
  plans = plan ∷ [];
  schedules = [];
}

abbrev run : JobPatch ℕ
run = record {
  status = JobStatus.running;
  approval_id = none;
  output = some 7;
  completed_at = none;
}

abbrev db_running : Db ℕ
db_running = record db { jobs = patched run 5 job ∷ record job { id = "j2" } ∷ [] }

runs : update_job db "j1" 5 run ≡ some (db_running, patched run 5 job)
unfolding update_job get_job
runs = refl

abbrev db_planned : Db ℕ
db_planned = record db { plans = patched_plan no_patch 5 plan ∷ [] }

plans : update_execution_plan db "p1" 5 no_patch ≡ some (db_planned, patched_plan no_patch 5 plan)
unfolding update_execution_plan get_execution_plan
plans = refl

distinct : ◌≢◌ {A = String} "s2" "s1"
distinct e = (let same = (eq_iff "s2" "s1").1 e in ground arith)

sync_tmux_session_status-synced_example : sync_tmux_session_status db ("s1" ∷ []) 5 ≡ (
  record db { sessions = map (synced ("s1" ∷ []) 5) db.sessions },
  map (λ s. s.id) (filter (ending ("s1" ∷ [])) db.sessions),
)
sync_tmux_session_status-synced_example =
    sync_tmux_session_status-synced db ("s1" ∷ []) 5 ((distinct, tt), (tt, tt))

find-revoke_example :
    (find_user_by_auth_token
      (λ s. s)
      (revoke_auth_token (λ s. s) (issue_auth_session (λ s. s) db "t1" 5 "raw" "u1" 24) "raw")
      6
      "raw").1
    ≡ none
find-revoke_example =
    find-revoke (λ s. s) (issue_auth_session (λ s. s) db "t1" 5 "raw" "u1" 24) 6 "raw"

find-issue_example :
    (6 < 5 + 24 * 3600000
      → (find_user_by_auth_token
          (λ s. s)
          (issue_auth_session (λ s. s) db "t1" 5 "raw" "u1" 24)
          6
          "raw").1
        ≡ some (summary user))
    × (5 + 24 * 3600000 ≤ 6
        → (find_user_by_auth_token
            (λ s. s)
            (issue_auth_session (λ s. s) db "t1" 5 "raw" "u1" 24)
            6
            "raw").1
          ≡ none)
find-issue_example = find-issue (λ s. s) db "t1" "raw" 5 6 24 user refl refl

abbrev weekly : NewSchedule
weekly = record {
  owner_id = "u1";
  runbook_id = "r1";
  session_id = "s1";
  weekday = 4;
  time_utc = "03:30";
  timezone = "UTC";
  requested_mode = scheduled_auto;
  effective_mode = scheduled_plan_only;
  status = ScheduleStatus.active;
  runbook_version_hash = "h";
  next_run_at = 7000;
}

abbrev scheduled : Db ℕ
scheduled = record db { schedules = new_schedule "c1" 5 weekly ∷ [] }

abbrev ran : SchedulePatch
ran = record {
  requested_mode = none;
  effective_mode = none;
  status = none;
  runbook_version_hash = none;
  last_planned_at = none;
  last_run_at = some (some 8000);
  next_run_at = some 9000;
}

abbrev rescheduled : Db ℕ
rescheduled = record scheduled {
  schedules = patched_schedule ran 8 (new_schedule "c1" 5 weekly) ∷ [];
}

reschedules :
    update_scheduled_runbook scheduled "c1" 8 ran
    ≡ some (rescheduled, patched_schedule ran 8 (new_schedule "c1" 5 weekly))
unfolding update_scheduled_runbook get_scheduled_runbook
reschedules = refl
