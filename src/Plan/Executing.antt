-- ===== src/Plan/Executing.antt =====
-- apps/api/src/app.ts, `executeRunbookPlan` and `executeAgentPlan`: the dispatch of a plan.
use mathlib.Core.Option
use wireguard_ops_cockpit.Base.{
  String, ℕ, Bool, false, if◌then◌else◌, Option, none, some, [], ◌∷◌, map,
}
use wireguard_ops_cockpit.Base.Actions.{
  Result, done, thrown, Action, pure, throw, or_throw, ◌>>=◌, ◌>>◌,
}
use wireguard_ops_cockpit.Base.Json.{Json, Fields, str, bool, arr, of_list, lookup, fields, spread}
use wireguard_ops_cockpit.Plan.{
  Config, World, Job, launch, insert_job, patch_plan, audit, touch_session, revive_session,
  input_text,
}
use wireguard_ops_cockpit.Plan.Reviewing.{review, target_text}
use wireguard_ops_cockpit.Registry.{Runbook, Agent}
use wireguard_ops_cockpit.Registry.Encoding.{str_or_null}
use wireguard_ops_cockpit.Checkpoint.{initial_state, parse_contract_value}
use wireguard_ops_cockpit.Checkpoint.Parsing.{to_json}
use wireguard_ops_cockpit.Registry.Dispatch.{LaunchResult, Dispatch, build_runbook_dispatch}
use wireguard_ops_cockpit.Base.Text.{joined, slice_to, slugify}
use wireguard_ops_cockpit.Store.{
  PlanRow, PlanStatus, SessionRow, JobKind, JobStatus, Verdict, TmuxBackend, tmux, disabled,
}
use wireguard_ops_cockpit.Store.Accounts.{Actor}
use wireguard_ops_cockpit.Store.Plans.{PlanPatch, no_patch}
use wireguard_ops_cockpit.Store.Sessions.{get_session_for_actor}

abbrev pub backend_text : TmuxBackend → String
backend_text tmux = "tmux"
backend_text disabled = "disabled"

-- The session that a plan names, if it belongs to who asked for the plan.
unfoldable pub session_of_plan : PlanRow → World → Option SessionRow
session_of_plan plan w = elim plan.session_id [
  | none ↦ none
  | some id ↦ get_session_for_actor w.db id plan.requested_by
]

abbrev pub of_result : {A : Type 0} → Result A → Action World A
of_result (done a) = pure a
of_result (thrown message) = throw message

unfoldable pub runbook_dispatch_output : Runbook → SessionRow → String → Actor → String → Fields
runbook_dispatch_output runbook session window actor note = fields (
    ("summary", str (joined (runbook.name ∷ " dispatched to the host tmux executor." ∷ [])))
    ∷ (
      "lines",
      arr (
          of_list (
            str (joined ("Requested by " ∷ actor.username ∷ "." ∷ []))
            ∷ str (joined ("Linked session: " ∷ session.name ∷ "." ∷ []))
            ∷ str (joined ("tmux target: " ∷ session.tmux_session_name ∷ ":" ∷ window ∷ "." ∷ []))
            ∷ str note
            ∷ str (
                joined
                  ("Manual attach: sudo -u wgops tmux attach -t " ∷ session.tmux_session_name ∷ []))
            ∷ [])),
    )
    ∷ [])

-- The patch of a plan whose command was started, apart from the reviews of its hooks.
abbrev pub executed_patch : String → PlanPatch
executed_patch job_id = record no_patch {
  status = some PlanStatus.executed;
  executed_job_id = some (some job_id);
}

unfoldable pub agent_output : Agent → String → Bool → String → Fields
agent_output agent prompt started note = fields (
    (
      "summary",
      str (
          joined (
            agent.name
            ∷ " "
            ∷ (if started then "started" else "recorded")
            ∷ " through the control plane."
            ∷ [])),
    )
    ∷ ("prompt", str prompt)
    ∷ ("note", str note)
    ∷ [])

-- `/tmp/opencode-<the first eight characters of the session's id>-<agent><suffix>.log`
unfoldable pub log_file : SessionRow → Agent → String → String
log_file session agent suffix =
    joined ("/tmp/opencode-" ∷ slice_to 8 session.id ∷ "-" ∷ agent.id ∷ suffix ∷ ".log" ∷ [])

abbrev pub prompt_of : PlanRow → String
prompt_of plan =
    Option.get_or (input_text "prompt" plan)
      "Inspect the current maintenance context and report back."

unfoldable pub agent_window : Agent → String → String
unfolding slugify
agent_window agent suffix = slugify (joined ("agent-" ∷ agent.id ∷ suffix ∷ []))

module _ (config : Config) (now : ℕ) where
  -- The rows of a dispatched runbook: its job, the plan, the audits.
  unfoldable pub record_runbook :
      PlanRow
      → Actor
      → Runbook
      → SessionRow
      → Dispatch
      → LaunchResult
      → Action World (PlanRow × Job)
  record_runbook plan actor runbook session dispatch result = do
    job ← insert_job config now (record {
      session_id = some session.id;
      kind = JobKind.runbook;
      subject_id = some runbook.id;
      status = JobStatus.running;
      requires_approval = false;
      approval_id = none;
      output = some (
          spread (runbook_dispatch_output runbook session dispatch.window_name actor result.note) (
            fields (
              ("planId", str plan.id)
              ∷ ("planHash", str plan.plan_hash)
              ∷ ("tmuxBackend", str (backend_text result.backend))
              ∷ ("tmuxWindowName", str dispatch.window_name)
              ∷ [])));
      completed_at = none;
    })
    updated ← patch_plan now plan.id (record (executed_patch job.id) {
      runtime_hook = some (
          review none Verdict.passed
            "Runtime hook dispatched the runbook into the host tmux session through the bounded executor contract."
            (fields (
              ("jobId", str job.id)
              ∷ ("backend", str (backend_text result.backend))
              ∷ ("windowName", str dispatch.window_name)
              ∷ [])));
      post_execution_hook = some (
          review none Verdict.pending
            "Post-exec verification is waiting for the operator or a future runtime callback to confirm the final outcome."
            (fields (
              ("jobId", str job.id)
              ∷ ("tmuxSessionName", str session.tmux_session_name)
              ∷ ("windowName", str dispatch.window_name)
              ∷ [])));
    })
    touch_session now session.id
    audit config now (record {
      actor_id = some actor.id;
      action = "execution.plan.executed";
      target_type = "execution-plan";
      target_id = some plan.id;
      details = fields (
          ("targetType", str (target_text plan.target_type))
          ∷ ("targetId", str plan.target_id)
          ∷ ("executedJobId", str job.id)
          ∷ []);
    })
    audit config now (record {
      actor_id = some actor.id;
      action = "runbook.dispatched";
      target_type = "runbook";
      target_id = some runbook.id;
      details = fields (
          ("runbookId", str runbook.id)
          ∷ ("sessionId", str session.id)
          ∷ ("tmuxSessionName", str session.tmux_session_name)
          ∷ ("tmuxWindowName", str dispatch.window_name)
          ∷ []);
    })
    pure (updated, job)

  unfoldable pub execute_runbook_plan : PlanRow → Actor → Runbook → Action World (PlanRow × Job)
  execute_runbook_plan plan actor runbook = do
    session ← or_throw "session not found for runbook plan" (session_of_plan plan)
    dispatch ← of_result (build_runbook_dispatch config.resolve config.repo_root runbook)
    result ← launch config session.tmux_session_name dispatch.window_name dispatch.command
    (if result.started then revive_session now session.id else pure tt)
    record_runbook plan actor runbook session dispatch result

  -- The rows of a launched agent: its job, the plan, the audits.
  unfoldable pub record_agent :
      PlanRow → Actor → Agent → SessionRow → String → LaunchResult → Action World (PlanRow × Job)
  record_agent plan actor agent session prompt result = do
    let state =
        initial_state (parse_contract_value (lookup "checkpointContract" plan.normalized_input))
    let text_of : String → Json = λ name. str_or_null (input_text name plan)
    job ← insert_job config now (record {
      session_id = some session.id;
      kind = JobKind.agent;
      subject_id = some agent.id;
      status = JobStatus.completed;
      requires_approval = false;
      approval_id = none;
      output = some (
          spread (agent_output agent prompt result.started result.note) (
            fields (
              ("planId", str plan.id)
              ∷ ("planHash", str plan.plan_hash)
              ∷ ("agentManifestDigest", text_of "agentManifestDigest")
              ∷ ("promptContractId", text_of "promptContractId")
              ∷ ("checkpointContractId", text_of "checkpointContractId")
              ∷ ("checkpointContractDigest", text_of "checkpointContractDigest")
              ∷ ("checkpoints", arr (of_list (map to_json state.0)))
              ∷ ("activeCheckpointId", str_or_null state.1)
              ∷ ("supervisionMode", text_of "supervisionMode")
              ∷ [])));
      completed_at = some now;
    })
    updated ← patch_plan now plan.id (record (executed_patch job.id) {
      runtime_hook = some (
          review none Verdict.passed
            "Runtime hook observed the bounded local agent launch complete through the tmux adapter contract."
            (fields (
              ("jobId", str job.id)
              ∷ ("started", bool result.started)
              ∷ ("backend", str (backend_text result.backend))
              ∷ [])));
      post_execution_hook = some (
          review none Verdict.passed
            "Post-exec hook captured the launch outcome and preserved the audit trail for operator takeover."
            (fields (("jobId", str job.id) ∷ [])));
    })
    touch_session now session.id
    audit config now (record {
      actor_id = some actor.id;
      action = "execution.plan.executed";
      target_type = "execution-plan";
      target_id = some plan.id;
      details = fields (
          ("targetType", str (target_text plan.target_type))
          ∷ ("targetId", str plan.target_id)
          ∷ ("executedJobId", str job.id)
          ∷ []);
    })
    audit config now (record {
      actor_id = some actor.id;
      action = "agent.launched";
      target_type = "agent";
      target_id = some agent.id;
      details = fields (
          ("sessionId", str session.id)
          ∷ ("tmuxBackend", str (backend_text result.backend))
          ∷ ("planId", str plan.id)
          ∷ ("checkpointContractDigest", text_of "checkpointContractDigest")
          ∷ ("activeCheckpointId", str_or_null state.1)
          ∷ []);
    })
    pure (updated, job)

  unfoldable pub execute_agent_plan :
      PlanRow → Actor → Agent → String → Action World (PlanRow × Job)
  unfolding log_file agent_window
  execute_agent_plan plan actor agent suffix =
      if config.agent_broker
      then throw "local agent execution is disabled while the isolated agent broker is configured"
      else (do
        session ← or_throw "session not found for agent plan" (session_of_plan plan)
        let prompt = prompt_of plan
        result ←
            launch config session.tmux_session_name (agent_window agent suffix)
              (config.agent_command agent prompt (log_file session agent suffix))
        (if result.started then revive_session now session.id else pure tt)
        record_agent plan actor agent session prompt result)
