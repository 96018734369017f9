-- ===== src/Plan/Tests.antt =====
-- The handlers of plans at concrete states: an approval that is decided, a request that runs, and a
-- checkpoint that is advanced.
use mathlib.Core.Option
use wireguard_ops_cockpit.Base.{
  ℕ, ◌≡◌, ◌≢◌, refl, ap, String, true, false, none, some, [], ◌∷◌, length, arith, inr, string_eq,
  ◌==◌, nat_eq, sym, ◌∙◌, if◌then◌else◌,
}
use wireguard_ops_cockpit.Base.Json.{
  Json, str, arr, obj, end, fields, lookup, as_string, as_object, of_list, spread, set_field,
}
use wireguard_ops_cockpit.Base.Text.{joined, trim}
use wireguard_ops_cockpit.Checkpoint.{
  parse_state_value, parse_state_entry, parse_kind, parse_status, parse_runbook_id, advance_state,
}
use wireguard_ops_cockpit.Checkpoint.Staged.{IsStaged}
use wireguard_ops_cockpit.Base.Actions.{done}
use wireguard_ops_cockpit.Plan.{
  Config, World, Job, Database, audit, insert_job, patch_job, patch_plan, settle_approval,
  touch_session, revive_session, launch,
}
use wireguard_ops_cockpit.Plan.Checkpoints.{
  advance_checkpoint, advance_for_actor, advance_job_checkpoint, store_advanced, advanced_output,
  agent_name, checkpoint_summary,
}
use wireguard_ops_cockpit.Plan.Checkpoints.Laws.{
  AdvancedJob, checkpoints_of_job, texts_differ, advance_checkpoint-staged,
}
use wireguard_ops_cockpit.Plan.Creating.{
  create_runbook_plan, runbook_plan, runbook_payload, runbook_input, insert_plan,
}
use wireguard_ops_cockpit.Plan.Deciding.{
  Decision, follow_plan, follow_decision, settle, decide_pending, decide_plan_approval, status_of,
}
use wireguard_ops_cockpit.Plan.Approving.{
  dispatch_plan, dispatch_reviewed, finish_plan, approve_runbook, approve_target, approve_plan,
}
use wireguard_ops_cockpit.Plan.Deciding.Final.{decide_plan_approval-final}
use wireguard_ops_cockpit.Plan.Deciding.Laws.{ApprovedStart, decide_plan_approval-starts}
use wireguard_ops_cockpit.Plan.Dispatching.{StartsIn}
use wireguard_ops_cockpit.Plan.Executing.{
  execute_runbook_plan, record_runbook, session_of_plan, runbook_dispatch_output,
}
use wireguard_ops_cockpit.Plan.Requests.{
  execute_runbook, plan_and_answer, answer_runbook_plan, answer_executed,
}
use wireguard_ops_cockpit.Plan.Requests.Laws.{execute_runbook-starts}
use wireguard_ops_cockpit.Plan.Requests.BuiltIn.{execute_runbook-built_in}
use wireguard_ops_cockpit.Registry.Runbooks.{built_in_runbooks}
use wireguard_ops_cockpit.Plan.Reviewing.{
  review, create_plan_hash, recompute_plan_hash, payload_json, plan_job_output,
  resolve_runbook_plan_state, is_high_risk_runbook,
}
use wireguard_ops_cockpit.Registry.{Runbook, host_tmux, find_runbook, find_script, find_agent}
use wireguard_ops_cockpit.Registry.Dispatch.{
  build_runbook_dispatch, row_of, Dispatch, shell_quote, launch_command, is_safe_name,
}
use wireguard_ops_cockpit.Registry.Encoding.{
  compute_runbook_version_hash, runbook_json, script_json, step_json,
}
use wireguard_ops_cockpit.Store.{
  PlanRow, PlanStatus, PlanTarget, RiskClass, Review, Verdict, SessionRow, SessionStatus, tmux,
  ApprovalRow, ApprovalStatus, JobKind, JobStatus, admin,
}
use wireguard_ops_cockpit.Store.Accounts.{Actor}
use wireguard_ops_cockpit.Store.Approvals.{get_approval, decide_approval, decided}
use wireguard_ops_cockpit.Store.Audits.{create_audit}
use wireguard_ops_cockpit.Store.Jobs.{get_job, create_job, update_job}
use wireguard_ops_cockpit.Store.Plans.{
  get_execution_plan, update_execution_plan, create_execution_plan,
}
use wireguard_ops_cockpit.Store.Sessions.{
  get_session_for_actor, set_session_status, set_status, record_session_activity,
}

abbrev drawn_id : ℕ → String
drawn_id n = if n == 0 then "id-0" else if n == 1 then "id-1" else "id-2"

abbrev pub config : Config
config = record {
  approval_ttl_minutes = 60;
  repo_root = "/opt/cockpit";
  agent_broker = false;
  backend = tmux;
  digest = λ j. elim (as_object j) [
    | none ↦ "none"
    | some fs ↦ Option.get_or (as_string (lookup "targetId" fs)) "version"
  ];
  uuid = drawn_id;
  resolve = λ root path. path;
  run_tmux = λ session window command. none;
  agent_command = λ agent prompt log. record { executable = "bash"; args = []; cwd = none };
}

abbrev pub actor : Actor
actor = record { id = "u1"; username = "jochen"; role = admin }

abbrev pub session : SessionRow
session = record {
  id = "s1";
  name = "ops";
  status = SessionStatus.active;
  owner_id = some "u1";
  tmux_session_name = "ops-1";
  tmux_backend = tmux;
  terminal_url = none;
  created_at = 0;
  updated_at = 0;
  last_activity_at = 0;
}

abbrev pub disk : Runbook
disk = record {
  id = "disk-health-check";
  name = "Disk health";
  summary = "";
  requires_session = true;
  requires_approval = false;
  integration = host_tmux;
  privileged_helper_requested = false;
  script_ids = [];
  workflow_steps = [];
}

abbrev pub passed : Review
passed = record { actor_id = none; verdict = Verdict.passed; summary = ""; details = end }

abbrev plan : PlanRow
plan = record {
  id = "p1";
  session_id = some "s1";
  target_type = PlanTarget.runbook;
  target_id = "disk-health-check";
  requested_by = "u1";
  status = PlanStatus.pending_approval;
  risk_class = RiskClass.high;
  requires_approval = true;
  approval_id = some "a1";
  executed_job_id = none;
  plan_hash = "disk-health-check";
  plan_summary = "";
  normalized_input = fields (("runbookVersionHash", str "version") ∷ []);
  planner_review = passed;
  safety_review = passed;
  policy_review = passed;
  pre_execution_hook = passed;
  runtime_hook = passed;
  post_execution_hook = passed;
  created_at = 0;
  updated_at = 0;
}

abbrev job : Job
job = record {
  id = "j1";
  session_id = some "s1";
  kind = JobKind.execution_plan;
  subject_id = some "p1";
  status = JobStatus.pending_approval;
  requires_approval = true;
  approval_id = some "a1";
  output = none;
  created_at = 0;
  updated_at = 0;
  completed_at = none;
}

abbrev approval : ApprovalRow
approval = record {
  id = "a1";
  job_id = "j1";
  status = ApprovalStatus.pending;
  requested_by = "u1";
  decided_by = none;
  reason = some "review it";
  created_at = 0;
  decided_at = none;
}

abbrev step : String → Json → Json
step id status = obj (
    fields (
      ("id", str id)
      ∷ ("label", str id)
      ∷ ("description", str "")
      ∷ ("kind", str "analysis")
      ∷ ("status", status)
      ∷ []))

abbrev supervised : Job
supervised = record job {
  id = "j2";
  kind = JobKind.agent;
  status = JobStatus.completed;
  output = some (
      fields (
        (
          "checkpoints",
          arr (of_list (step "c1" (str "awaiting_operator") ∷ step "c2" (str "planned") ∷ [])),
        )
        ∷ ("activeCheckpointId", str "c1")
        ∷ []));
}

abbrev pub empty_db : Database
empty_db = record {
  users =
      record { id = "u1"; username = "jochen"; password_hash = ""; role = admin; created_at = 0 }
      ∷ [];
  auth_sessions = [];
  api_tokens = [];
  sessions = session ∷ [];
  jobs = [];
  approvals = [];
  audits = [];
  plans = [];
  schedules = [];
}

abbrev pub world_of : Database → World
world_of db = record {
  db = db;
  registry = record { dynamic = []; built_in = disk ∷ []; scripts = []; agents = [] };
  launched = [];
  drawn = 0;
}

abbrev w : World
w =
    world_of (record empty_db {
      jobs = job ∷ supervised ∷ [];
      approvals = approval ∷ [];
      plans = plan ∷ [];
    })

abbrev consent : Decision
consent = record { approved = some true; reason = some "ok" }

starts_one : length (decide_plan_approval config 9 actor "a1" consent w).1.launched ≡ 1
unfolding decide_plan_approval decide_pending settle settle_approval decide_approval get_approval
    get_job follow_decision audit create_audit follow_plan approve_plan recompute_plan_hash
    create_plan_hash payload_json approve_target approve_runbook find_runbook
    compute_runbook_version_hash runbook_json script_json step_json find_script dispatch_reviewed
    dispatch_plan patch_plan update_execution_plan get_execution_plan review execute_runbook_plan
    session_of_plan get_session_for_actor build_runbook_dispatch row_of shell_quote launch
    launch_command is_safe_name revive_session set_session_status set_status record_runbook
    insert_job create_job runbook_dispatch_output joined spread set_field touch_session
    record_session_activity finish_plan patch_job update_job plan_job_output trim
starts_one = refl

decide_plan_approval-starts_example :
    (found : ApprovalRow) × (get_approval w.db "a1" ≡ some found)
    × ApprovedStart config 9 actor consent found w
        (decide_plan_approval config 9 actor "a1" consent w).1.launched
decide_plan_approval-starts_example =
    decide_plan_approval-starts config 9 actor "a1" consent w
      (λ same. absurd (ground (arith, starts_one, ap length same)))

stored : get_approval w.db "a1" ≡ some approval
unfolding get_approval
stored = refl

trimmed : trim "ok" ≡ "ok"
unfolding trim
trimmed = refl

filled : ◌≢◌ {A = String} (trim "ok") ""
filled h = texts_differ _ _ refl (sym trimmed ∙ h)

decide_plan_approval-final_example :
    (get_approval (decide_plan_approval config 9 actor "a1" consent w).1.db "a1"
      ≡ some (decided (status_of true) "u1" (some "ok") 9 approval))
    × ((other_config : Config) (later : ℕ) (other : Actor) (second : Decision)
        → (decide_plan_approval other_config later other "a1" second
            (decide_plan_approval config 9 actor "a1" consent w).1).1
          ≡ (decide_plan_approval config 9 actor "a1" consent w).1)
decide_plan_approval-final_example =
    decide_plan_approval-final config 9 actor "a1" "ok" true approval w stored refl refl filled
      (λ same. omega arith)

runs_one :
    length (execute_runbook config 5 actor "disk-health-check" (some "s1") passed w).1.launched ≡ 1
unfolding execute_runbook plan_and_answer answer_runbook_plan answer_executed create_runbook_plan
    runbook_plan runbook_payload runbook_input insert_plan create_execution_plan
    resolve_runbook_plan_state is_high_risk_runbook audit create_audit create_plan_hash payload_json
    find_runbook compute_runbook_version_hash runbook_json script_json step_json find_script
    patch_plan update_execution_plan get_execution_plan review execute_runbook_plan session_of_plan
    get_session_for_actor build_runbook_dispatch row_of shell_quote launch launch_command
    is_safe_name revive_session set_session_status set_status record_runbook insert_job create_job
    runbook_dispatch_output joined spread set_field touch_session record_session_activity
runs_one = refl

execute_runbook-starts_example :
    (runbook : Runbook) × (owned : SessionRow) × (find_runbook w.registry "disk-health-check"
      ≡ some runbook)
    × (some "s1" ≡ some owned.id)
    × (owned.owner_id ≡ some "u1")
    × (runbook.requires_approval ≡ false)
    × (passed.verdict ≢ Verdict.blocked)
    × (passed.verdict ≢ Verdict.not_run)
    × (passed.verdict ≢ Verdict.approval_required)
    × StartsIn owned.tmux_session_name w.launched
        (execute_runbook config 5 actor "disk-health-check" (some "s1") passed w).1.launched
execute_runbook-starts_example =
    execute_runbook-starts config 5 actor "disk-health-check" (some "s1") passed w
      (λ same. absurd (ground (arith, runs_one, ap length same)))

abbrev stock : World
stock = record w {
  registry = record { dynamic = []; built_in = built_in_runbooks; scripts = []; agents = [] };
}

checks_disk :
    length (execute_runbook config 5 actor "disk-health-check" (some "s1") passed stock).1.launched
    ≡ 1
unfolding execute_runbook plan_and_answer answer_runbook_plan answer_executed create_runbook_plan
    runbook_plan runbook_payload runbook_input insert_plan create_execution_plan
    resolve_runbook_plan_state is_high_risk_runbook audit create_audit create_plan_hash payload_json
    find_runbook compute_runbook_version_hash runbook_json script_json step_json find_script
    patch_plan update_execution_plan get_execution_plan review execute_runbook_plan session_of_plan
    get_session_for_actor build_runbook_dispatch row_of shell_quote launch launch_command
    is_safe_name revive_session set_session_status set_status record_runbook insert_job create_job
    runbook_dispatch_output joined spread set_field touch_session record_session_activity
    built_in_runbooks
checks_disk = refl

execute_runbook-built_in_example :
    (runbook : Runbook) × (d : Dispatch) × (find_runbook stock.registry "disk-health-check"
      ≡ some runbook)
    × (◌≡◌ {A = String} "disk-health-check" "disk-health-check")
    × (build_runbook_dispatch config.resolve config.repo_root runbook ≡ done d)
    × (runbook.privileged_helper_requested ≡ false)
execute_runbook-built_in_example =
    execute_runbook-built_in config 5 actor "disk-health-check" (some "s1") passed stock refl refl
      (λ same. absurd (ground (arith, checks_disk, ap length same)))

supervised_found : get_job w.db "j2" ≡ some supervised
unfolding get_job
supervised_found = refl

in_order : IsStaged (checkpoints_of_job supervised)
unfolding parse_state_value parse_state_entry parse_kind parse_status parse_runbook_id
in_order = inr (refl, (refl, tt))

changes_one : length (advance_checkpoint config 7 actor "j2" "c1" w).1.db.audits ≡ 1
unfolding advance_checkpoint advance_for_actor advance_job_checkpoint store_advanced advanced_output
    agent_name checkpoint_summary parse_state_value parse_state_entry parse_kind parse_status
    parse_runbook_id advance_state get_job get_session_for_actor patch_job update_job touch_session
    record_session_activity audit create_audit find_agent joined spread set_field
changes_one = refl

advance_checkpoint-staged_example :
    AdvancedJob config 7 actor w supervised (advance_checkpoint config 7 actor "j2" "c1" w).1
advance_checkpoint-staged_example =
    advance_checkpoint-staged config 7 actor w "j2" "c1" supervised supervised_found in_order
      (λ same. absurd (ground (arith, changes_one, ap (λ v. length v.db.audits) same)))
