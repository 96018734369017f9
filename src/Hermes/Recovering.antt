-- ===== src/Hermes/Recovering.antt =====
-- apps/api/src/app.ts: what a restart of the API does with a running job. A job that follows a host run
-- is counted apart; following it, which waits for the host, is not modelled. `planner` is whether the
-- planner's agent is registered.
pub mod Laws
pub mod Life
mod Tests
use mathlib.Core.Option
use wireguard_ops_cockpit.Base.{
  ℕ, suc, ◌+◌, ◌-◌, ◌/◌, String, Bool, true, false, Option, none, some, List, [], ◌∷◌, ◌++◌, ◌==◌,
  ◌&&◌, ◌||◌, not, ltb, leb, if◌then◌else◌, string_eq, option_eq, nat_eq, length, count, filter,
}
use wireguard_ops_cockpit.Base.Json.{
  Json, Fields, str, num, obj, arr, null, fields, lookup, as_string, as_array, as_object, of_list,
}
use wireguard_ops_cockpit.Base.Options.{◌>>=◌}
use wireguard_ops_cockpit.Base.Text.{joined, decimal}
use wireguard_ops_cockpit.Envelope.{EnvelopeError}
use wireguard_ops_cockpit.Hermes.{
  HermesPhase, queued, planning, reviewing, waiting_for_host, executing, verifying, finished,
  HermesExplanation, ChangeRequest, Output, Job, World, Call, Config, no_output, output_of, is_some,
  explained,
}
use wireguard_ops_cockpit.Hermes.Deciding.{runtime_session, runnable_request}
use wireguard_ops_cockpit.Hermes.Updating.{update_hermes_job}
use wireguard_ops_cockpit.Hermes.Withdrawing.{phase_of, completed_of, is_replannable}
use wireguard_ops_cockpit.Store.{JobStatus, SessionRow}
use wireguard_ops_cockpit.Store.Accounts.{Actor, get_user_by_id}
use wireguard_ops_cockpit.Store.Audits.{NewAudit, create_audit}
use wireguard_ops_cockpit.Store.Jobs.{get_job_owner_id, update_job, list_jobs_by_status, JobPatch}

abbrev pub max_job_replans : ℕ
max_job_replans = 2

abbrev pub replan_window_ms : ℕ
replan_window_ms = 3600000

-- `String(explanation.phase || "unknown")`
abbrev pub phase_name : Option HermesPhase → String
phase_name none = "unknown"
phase_name (some queued) = "queued"
phase_name (some planning) = "planning"
phase_name (some reviewing) = "reviewing"
phase_name (some waiting_for_host) = "waiting_for_host"
phase_name (some executing) = "executing"
phase_name (some verifying) = "verifying"
phase_name (some finished) = "finished"

unfoldable pub follows_host_run : Job → Bool
follows_host_run job =
    is_some (output_of job).host_run_started_at || is_some (output_of job).host_run_requested_at

-- `phases[phase] = (phases[phase] ?? 0) + 1`
abbrev pub bump : String → List (String × ℕ) → List (String × ℕ)
bump phase [] = (phase, 1) ∷ []
bump phase ((name, n) ∷ phases) =
    let rest = bump phase phases in
    if name == phase then (name, n + 1) ∷ phases else (name, n) ∷ rest

-- The loop of `interruptibleJobs`: the number of the jobs, and how many of them are in each phase.
unfoldable pub count_interruptible : List Job → ℕ × List (String × ℕ) → ℕ × List (String × ℕ)
unfolding follows_host_run
count_interruptible [] totals = totals
count_interruptible (job ∷ jobs) (active, phases) =
    if follows_host_run job
    then count_interruptible jobs (active, phases)
    else count_interruptible jobs (active + 1, bump (phase_name (phase_of (output_of job))) phases)

unfoldable pub interruptible_jobs : World → ℕ × List (String × ℕ)
interruptible_jobs db =
    count_interruptible
      (list_jobs_by_status db "hermes-change" JobStatus.running
        ++ list_jobs_by_status db "hermes-research" JobStatus.running)
      (0, [])

-- `output.restarts`, if it is an array
abbrev pub restarts_of : Output → List Json
restarts_of output = Option.get_or (as_array output.restarts) []

abbrev pub is_replanned : Json → Bool
is_replanned entry = elim (as_object entry) [
  | none ↦ false
  | some fs ↦ as_string (lookup "action" fs) == some "replanned"
]

abbrev pub replans_of : Output → ℕ
replans_of output = count is_replanned (restarts_of output)

abbrev pub restart_entry : ℕ → String → String → String → Json
restart_entry time phase action reason = obj (
    fields (
      ("at", num time)
      ∷ ("phase", str phase)
      ∷ ("action", str action)
      ∷ ("reason", str reason)
      ∷ []))

-- `String(detail.intent || request?.intent || "Hermes job")`
abbrev pub recovered_intent : Output → String
recovered_intent output =
    let asked : String = elim output.request [
      | none ↦ "Hermes job"
      | some r ↦ if r.intent == "" then "Hermes job" else r.intent
    ] in
    elim output.explanation [ none ↦ asked | some e ↦ if e.intent == "" then asked else e.intent ]

-- What a job needs to be planned again.
pub record Runtime : Type 0 where
  pub request : ChangeRequest
  pub actor : Actor
  pub session : SessionRow

-- The owner and the session of the job, and the planner.
unfoldable pub runtime_of : World → Bool → Job → ChangeRequest → Option Runtime
runtime_of db planner job request = do
  owner ← get_job_owner_id db job.id
  actor ← get_user_by_id db owner
  session ← runtime_session db job owner
  if planner then some (record { request = request; actor = actor; session = session }) else none

pub data Verdict : Type 0 where
  refused : String → Verdict
  replan : Runtime → Verdict

-- Why the job is not planned again, or with what it is.
unfoldable pub verdict_of : World → ℕ → Bool → Job → Verdict
verdict_of db now planner job =
    let output = output_of job in
    let age = now - job.updated_at in
    let replans = replans_of output in
    if not (is_replannable (phase_of output))
    then refused (
        joined (
          "it was in phase "
          ∷ phase_name (phase_of output)
          ∷ ", where steps may have run, so it is not repeated on its own"
          ∷ []))
    else elim (runnable_request output.request) [
      | none ↦ refused "it has no recorded request to plan from"
      | some request ↦
          if leb max_job_replans replans
          then refused (joined ("it was already planned again " ∷ decimal replans ∷ " times" ∷ []))
          else if not (ltb age replan_window_ms)
          then refused
              (joined ("its last progress is " ∷ decimal ((age + 30000) / 60000) ∷ " min old" ∷ []))
          else elim (runtime_of db planner job request) [
            | none ↦ refused "its owner, session or planner is no longer available"
            | some runtime ↦ replan runtime
          ]
    ]

abbrev pub evidence_of : Output → List EnvelopeError
evidence_of output = elim output.explanation [ none ↦ [] | some e ↦ e.evidence ]

abbrev pub phase_label : Job → String
phase_label job = phase_name (phase_of (output_of job))

abbrev pub with_restart : Job → Json → Json
with_restart job entry = arr (of_list (restarts_of (output_of job) ++ entry ∷ []))

-- The row of a job that is given up: not through `updateHermesJob`, since a restart does not count
-- towards the breaker.
abbrev pub abandon_patch : ℕ → Job → String → JobPatch Output
abandon_patch now job reason = record {
  status = JobStatus.failed_execution;
  approval_id = none;
  output = some (record (output_of job) {
    restarts = some (with_restart job (restart_entry now (phase_label job) "abandoned" reason));
    explanation =
        some
          (record (explained finished (recovered_intent (output_of job))
            (completed_of (output_of job))
            (joined ("The Cockpit restarted while this job was running; " ∷ reason ∷ "." ∷ []))) {
              evidence = evidence_of (output_of job);
            });
  });
  completed_at = some (some now);
}

abbrev pub replan_explanation : Job → HermesExplanation
replan_explanation job = explained queued (recovered_intent (output_of job)) [] (
    joined (
      "The Cockpit restarted while the job was in phase "
      ∷ phase_label job
      ∷ "; nothing had run on the host, so it is planned again ("
      ∷ decimal (replans_of (output_of job) + 1)
      ∷ " of at most "
      ∷ decimal max_job_replans
      ∷ ")."
      ∷ []))

-- Only the request and the restarts carry over to the new attempt.
abbrev pub replan_output : ℕ → Job → Runtime → Output
replan_output now job runtime = record no_output {
  request = some runtime.request;
  restarts = some (
      with_restart job (
        restart_entry now (phase_label job) "replanned"
          (joined ("restart during " ∷ phase_label job ∷ []))));
}

abbrev pub abandoned_audit : Job → String → NewAudit
abandoned_audit job reason = record {
  actor_id = none;
  action = "hermes.job.abandoned";
  target_type = "job";
  target_id = some job.id;
  details = fields (("phase", str (phase_label job)) ∷ ("reason", str reason) ∷ []);
}

abbrev pub replanned_audit : Job → NewAudit
replanned_audit job = record {
  actor_id = none;
  action = "hermes.job.replanned";
  target_type = "job";
  target_id = some job.id;
  details =
      fields
        (("phase", str (phase_label job)) ∷ ("attempt", num (replans_of (output_of job) + 1)) ∷ []);
}

module _ (config : Config) (call : Call) where
  unfoldable pub abandon : World → Job → String → Option World
  abandon db job reason = do
    (db1, updated) ← update_job db job.id call.now (abandon_patch call.now job reason)
    some (create_audit db1 call.audit_id call.now (abandoned_audit job reason))

  unfoldable pub replan_job : World → Job → Runtime → Option World
  replan_job db job runtime = do
    (db1, updated) ←
        update_hermes_job config call db job.id JobStatus.running (replan_explanation job)
          (replan_output call.now job runtime)
    some (create_audit db1 call.audit_id call.now (replanned_audit job))

  -- The state after it, and whether the job's run is started again.
  unfoldable pub recover_interrupted_job : World → Bool → Job → Option (World × Bool)
  recover_interrupted_job db planner job = elim (verdict_of db call.now planner job) [
    | refused reason ↦ (do db1 ← abandon db job reason; some (db1, false))
    | replan runtime ↦ (do db1 ← replan_job db job runtime; some (db1, true))
  ]
