-- ===== src/Plan/Reviewing.antt =====
-- apps/api/src/app.ts: the reviews that a plan carries, its hash, the output of its job, and the state
-- that a reviewed runbook plan starts in.
use wireguard_ops_cockpit.Base.{
  String, Bool, true, false, Option, [], ◌∷◌, ◌&&◌, ◌||◌, not, if◌then◌else◌, length,
}
use wireguard_ops_cockpit.Base.Json.{Json, Fields, str, num, obj, lookup, fields}
use wireguard_ops_cockpit.Base.Text.{joined}
use wireguard_ops_cockpit.Checkpoint.{parse_contract_value}
use wireguard_ops_cockpit.Plan.{Config, input_text}
use wireguard_ops_cockpit.Registry.{Runbook}
use wireguard_ops_cockpit.Registry.Encoding.{str_or_null}
use wireguard_ops_cockpit.Store.{Verdict, Review, PlanRow, PlanTarget, PlanStatus, RiskClass}

abbrev pub verdict_text : Verdict → String
verdict_text Verdict.pending = "pending"
verdict_text Verdict.passed = "passed"
verdict_text Verdict.blocked = "blocked"
verdict_text Verdict.approval_required = "approval_required"
verdict_text Verdict.not_run = "not_run"

abbrev pub risk_text : RiskClass → String
risk_text RiskClass.low = "low"
risk_text RiskClass.moderate = "moderate"
risk_text RiskClass.high = "high"

abbrev pub target_text : PlanTarget → String
target_text PlanTarget.runbook = "runbook"
target_text PlanTarget.agent = "agent"

unfoldable pub review : Option String → Verdict → String → Fields → Review
review actor_id verdict summary details = record {
  actor_id = actor_id;
  verdict = verdict;
  summary = summary;
  details = details;
}

-- What a plan's hash is about.
pub record Payload : Type 0 where
  pub target_type : PlanTarget
  pub target_id : String
  pub session_id : Option String
  pub requested_by : String
  pub normalized_input : Fields
  pub risk_class : RiskClass

unfoldable pub payload_json : Payload → Json
payload_json p = obj (
    fields (
      ("targetType", str (target_text p.target_type))
      ∷ ("targetId", str p.target_id)
      ∷ ("sessionId", str_or_null p.session_id)
      ∷ ("requestedBy", str p.requested_by)
      ∷ ("normalizedInput", obj p.normalized_input)
      ∷ ("riskClass", str (risk_text p.risk_class))
      ∷ []))

unfoldable pub create_plan_hash : Config → Payload → String
unfolding payload_json
create_plan_hash config payload = config.digest (payload_json payload)

abbrev pub payload_of : PlanRow → Payload
payload_of plan = record {
  target_type = plan.target_type;
  target_id = plan.target_id;
  session_id = plan.session_id;
  requested_by = plan.requested_by;
  normalized_input = plan.normalized_input;
  risk_class = plan.risk_class;
}

unfoldable pub recompute_plan_hash : Config → PlanRow → String
unfolding create_plan_hash
recompute_plan_hash config plan = create_plan_hash config (payload_of plan)

unfoldable pub plan_job_output : PlanRow → String → Fields
plan_job_output plan summary = fields (
    ("summary", str summary)
    ∷ ("planId", str plan.id)
    ∷ ("planHash", str plan.plan_hash)
    ∷ ("targetType", str (target_text plan.target_type))
    ∷ ("targetId", str plan.target_id)
    ∷ ("riskClass", str (risk_text plan.risk_class))
    ∷ ("runbookVersionHash", str_or_null (input_text "runbookVersionHash" plan))
    ∷ ("checkpointContractDigest", str_or_null (input_text "checkpointContractDigest" plan))
    ∷ (
      "checkpointCount",
      num (length (parse_contract_value (lookup "checkpointContract" plan.normalized_input))),
    )
    ∷ ("plannerVerdict", str (verdict_text plan.planner_review.verdict))
    ∷ ("safetySummary", str plan.safety_review.summary)
    ∷ ("safetyVerdict", str (verdict_text plan.safety_review.verdict))
    ∷ ("policyVerdict", str (verdict_text plan.policy_review.verdict))
    ∷ [])

abbrev pub escalates : Verdict → Bool
escalates Verdict.approval_required = true
escalates _ = false

-- The status, and whether the plan needs an approval.
unfoldable pub resolve_runbook_plan_state : Runbook → Verdict → PlanStatus × Bool
resolve_runbook_plan_state runbook Verdict.blocked = (PlanStatus.blocked, false)
resolve_runbook_plan_state runbook Verdict.not_run = (PlanStatus.pending_approval, true)
resolve_runbook_plan_state runbook verdict =
    let requires = runbook.requires_approval || escalates verdict in
    (if requires then PlanStatus.pending_approval else PlanStatus.ready, requires)

unfoldable pub create_runbook_approval_reason : PlanRow → Runbook → String
create_runbook_approval_reason plan runbook =
    if not runbook.requires_approval && escalates plan.safety_review.verdict
    then joined (
        runbook.name
        ∷ " was escalated by the safety review and now requires human approval before dispatch."
        ∷ [])
    else joined (
        runbook.name ∷ " requires explicit approval before dispatching the bounded host helper."
        ∷ [])

unfoldable pub is_high_risk_runbook : Runbook → Bool
is_high_risk_runbook runbook = runbook.requires_approval || runbook.privileged_helper_requested
