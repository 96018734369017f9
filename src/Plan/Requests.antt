-- ===== src/Plan/Requests.antt =====
-- apps/api/src/app.ts: POST /api/runbooks/:runbookId/execute, POST /api/agents/:agentId/launch, and
-- POST /api/jobs/:jobId/checkpoints/:checkpointId/advance. The safety review of a runbook is an
-- argument.
pub mod Laws
pub mod BuiltIn
use mathlib.Core.Option
use wireguard_ops_cockpit.Base.{
  ℕ, String, Bool, true, false, Option, none, some, List, [], ◌∷◌, ◌==◌, ◌!=◌, ◌&&◌, ◌||◌, not,
  if◌then◌else◌, string_eq, option_eq, nat_eq, map, length, find,
}
use wireguard_ops_cockpit.Base.Actions.{Action, pure, gets, or_return, ◌>>=◌, ◌>>◌}
use wireguard_ops_cockpit.Base.Json.{
  Json, Fields, str, num, arr, end, null, of_list, lookup, as_string, fields, spread,
}
use wireguard_ops_cockpit.Base.Text.{joined}
use wireguard_ops_cockpit.Checkpoint.{
  State, Advanced, parse_contract_value, parse_state_value, advance_state,
}
use wireguard_ops_cockpit.Checkpoint.Parsing.{to_json}
use wireguard_ops_cockpit.Plan.{
  Config, World, Job, Reply, refused, audit, patch_job, touch_session, input_text,
}
use wireguard_ops_cockpit.Plan.Creating.{
  create_runbook_plan, default_options, is_blocked, created_audit,
}
use wireguard_ops_cockpit.Plan.Executing.{execute_runbook_plan, execute_agent_plan}
use wireguard_ops_cockpit.Plan.Launching.{create_agent_plan, create_agent_approval_reason}
use wireguard_ops_cockpit.Plan.Recording.{
  Pending, create_pending_approval_for_plan, create_blocked_plan_record,
}
use wireguard_ops_cockpit.Plan.Reviewing.{create_runbook_approval_reason, risk_text, target_text}
use wireguard_ops_cockpit.Registry.{Runbook, Agent, find_runbook, find_agent}
use wireguard_ops_cockpit.Registry.Encoding.{str_or_null}
use wireguard_ops_cockpit.Store.{PlanRow, SessionRow, JobKind, Review}
use wireguard_ops_cockpit.Store.Accounts.{Actor}
use wireguard_ops_cockpit.Store.Jobs.{get_job}
use wireguard_ops_cockpit.Store.Sessions.{get_session_for_actor}

-- A text that is there and not empty.
abbrev pub given : Option String → Option String
given none = none
given (some s) = if s == "" then none else some s

abbrev pub created : PlanRow × Job → Reply
created executed = record {
  code = 201;
  message = "";
  approval = none;
  plan = some executed.0;
  job = some executed.1;
}

abbrev pub pending_reply : Pending → Reply
pending_reply p = record {
  code = 202;
  message = "";
  approval = some p.approval;
  plan = some p.plan;
  job = some p.job;
}

module _ (config : Config) (now : ℕ) where
  unfoldable pub answer_blocked : Actor → Runbook → PlanRow → Action World Reply
  answer_blocked actor runbook plan = do
    blocked ← create_blocked_plan_record config now plan actor (
        joined (
          runbook.name
          ∷ " was blocked by the safety review before the bounded host helper could run." ∷ []))
    pure (record (refused 409 "safety review blocked runbook dispatch") {
      plan = some plan;
      job = some blocked;
    })

  unfoldable pub answer_pending : Actor → PlanRow → String → Action World Reply
  answer_pending actor plan reason = do
    waiting ← create_pending_approval_for_plan config now plan actor reason
    pure (pending_reply waiting)

  unfoldable pub answer_executed : Action World (PlanRow × Job) → Action World Reply
  answer_executed execute = do executed ← execute; pure (created executed)

  -- The answer to a created plan: its job is blocked, waits for the operator, or runs.
  unfoldable pub answer_runbook_plan : Actor → Runbook → PlanRow → Action World Reply
  answer_runbook_plan actor runbook plan =
      if is_blocked plan.status
      then answer_blocked actor runbook plan
      else if plan.requires_approval
      then answer_pending actor plan (create_runbook_approval_reason plan runbook)
      else answer_executed (execute_runbook_plan config now plan actor runbook)

  unfoldable pub plan_and_answer : Actor → Runbook → SessionRow → Review → Action World Reply
  plan_and_answer actor runbook session safety = do
    plan ← create_runbook_plan config now actor runbook (some session) default_options safety
    audit config now (
        created_audit actor plan (
          ("sessionId", str session.id)
          ∷ ("riskClass", str (risk_text plan.risk_class))
          ∷ ("runbookVersionHash", str_or_null (input_text "runbookVersionHash" plan))
          ∷ []))
    answer_runbook_plan actor runbook plan

  unfoldable pub execute_runbook : Actor → String → Option String → Review → Action World Reply
  execute_runbook actor id session_id safety w =
      or_return (refused 404 "runbook not found") (find_runbook w.registry id)
        (λ runbook.
          or_return (refused 400 "sessionId is required") (given session_id) (λ session_id.
            or_return (refused 404 "session not found")
              (get_session_for_actor w.db session_id actor.id)
              (λ session. plan_and_answer actor runbook session safety)))
        w

  unfoldable pub answer_agent_plan : Actor → Agent → PlanRow → Action World Reply
  answer_agent_plan actor agent plan =
      if agent.requires_approval
      then answer_pending actor plan (create_agent_approval_reason agent)
      else answer_executed (execute_agent_plan config now plan actor agent "")

  unfoldable pub launch_planned : Actor → Agent → SessionRow → Option String → Action World Reply
  launch_planned actor agent session prompt = do
    plan ← create_agent_plan config now actor agent session.id prompt 240
    audit config now (
        created_audit actor plan (
          ("sessionId", str session.id)
          ∷ ("riskClass", str (risk_text plan.risk_class))
          ∷ ("checkpointContractDigest", str_or_null (input_text "checkpointContractDigest" plan))
          ∷ (
            "checkpointCount",
            num (length (parse_contract_value (lookup "checkpointContract" plan.normalized_input))),
          )
          ∷ []))
    answer_agent_plan actor agent plan

  unfoldable pub launch_agent : Actor → String → Option String → Option String → Action World Reply
  launch_agent actor id session_id prompt w =
      if config.agent_broker
      then pure
          (refused 410
            "legacy local agent launch is disabled under identity isolation; use the durable Hermes endpoints")
          w
      else or_return (refused 404 "agent not found") (find_agent w.registry id)
          (λ agent.
            or_return (refused 400 "sessionId is required") (given session_id) (λ session_id.
              or_return (refused 404 "session not found")
                (get_session_for_actor w.db session_id actor.id)
                (λ session. launch_planned actor agent session prompt)))
          w
