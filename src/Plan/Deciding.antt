-- ===== src/Plan/Deciding.antt =====
-- apps/api/src/app.ts: the decision about a plan, POST /api/approvals/:approvalId/decision.
pub mod Inner
pub mod Reviewed
pub mod Laws
pub mod Final
use mathlib.Core.Option
use wireguard_ops_cockpit.Base.{
  ℕ, ◌+◌, ◌*◌, String, Bool, true, false, Option, none, some, List, [], ◌∷◌, ◌==◌, ◌!=◌, ◌&&◌, ◌||◌,
  not, ltb, if◌then◌else◌, string_eq, option_eq, nat_eq,
}
use wireguard_ops_cockpit.Base.Actions.{Action, pure, throw, gets, or_return, ◌>>=◌, ◌>>◌}
use wireguard_ops_cockpit.Base.Json.{Json, Fields, str, num, lookup, fields, spread, end}
use wireguard_ops_cockpit.Base.Text.{trim}
use wireguard_ops_cockpit.Plan.{
  Config, World, Job, Reply, refused, audit, patch_job, patch_plan, settle_approval, touch_session,
  input_text,
}
use wireguard_ops_cockpit.Plan.Reviewing.{review, recompute_plan_hash, plan_job_output}
use wireguard_ops_cockpit.Plan.Executing.{execute_runbook_plan, execute_agent_plan}
use wireguard_ops_cockpit.Registry.{Runbook, Agent, find_runbook, find_agent}
use wireguard_ops_cockpit.Registry.Encoding.{
  compute_runbook_version_hash, compute_agent_manifest_digest, str_or_null,
}
use wireguard_ops_cockpit.Store.{
  PlanRow, PlanStatus, PlanTarget, runbook, agent, ApprovalRow, ApprovalStatus, JobKind, JobStatus,
  Verdict,
}
use wireguard_ops_cockpit.Store.Accounts.{Actor}
use wireguard_ops_cockpit.Store.Approvals.{get_approval}
use wireguard_ops_cockpit.Store.Audits.{NewAudit, text_or_empty}
use wireguard_ops_cockpit.Store.Jobs.{get_job}
use wireguard_ops_cockpit.Store.Plans.{PlanPatch, no_patch, get_execution_plan}
use wireguard_ops_cockpit.Plan.Approving.{approve_plan, reject_plan, decide_other_job}

-- The body: the decision that it names, and its reason.
pub record Decision : Type 0 where
  pub approved : Option Bool
  pub reason : Option String

abbrev pub is_pending : ApprovalStatus → Bool
is_pending ApprovalStatus.pending = true
is_pending _ = false

abbrev pub is_plan_job : JobKind → Bool
is_plan_job JobKind.execution_plan = true
is_plan_job _ = false

abbrev pub decision_text : ApprovalStatus → String
decision_text ApprovalStatus.pending = "pending"
decision_text ApprovalStatus.approved = "approved"
decision_text ApprovalStatus.rejected = "rejected"

abbrev pub status_of : Bool → ApprovalStatus
status_of is_approval = if is_approval then ApprovalStatus.approved else ApprovalStatus.rejected

-- `job.subjectId ? getExecutionPlan(job.subjectId) : null`
abbrev pub plan_of_job : Job → World → Option PlanRow
plan_of_job job w = elim job.subject_id [
  | none ↦ none
  | some id ↦ if id == "" then none else get_execution_plan w.db id
]

abbrev pub deadline : Config → ApprovalRow → ℕ
deadline config approval = approval.created_at + config.approval_ttl_minutes * 60000

abbrev pub decided_audit : Actor → ApprovalRow → Job → Option PlanRow → NewAudit
decided_audit actor approval job planned = record {
  actor_id = some actor.id;
  action = "approval.decided";
  target_type = "approval";
  target_id = some approval.id;
  details = fields (
      ("decision", str (decision_text approval.status))
      ∷ ("jobId", str approval.job_id)
      ∷ (
        "planHash",
        str_or_null (
            if is_plan_job job.kind
            then Option.map (λ (p : PlanRow). p.plan_hash) planned
            else none),
      )
      ∷ []);
}

module _ (config : Config) (now : ℕ) where
  unfoldable pub follow_plan :
      Actor → ApprovalRow → Bool → Job → Option PlanRow → Action World Reply
  follow_plan actor approval is_approval job planned =
      if not (is_plan_job job.kind)
      then decide_other_job config now job approval is_approval
      else or_return (refused 500 "execution plan not found") planned (λ plan.
        if is_approval
        then approve_plan config now plan job approval actor
        else reject_plan config now plan job approval)

  -- The decided approval is audited, and its job and plan follow it.
  unfoldable pub follow_decision : Actor → ApprovalRow → Bool → Job → Action World Reply
  follow_decision actor approval is_approval job = do
    planned ← gets (plan_of_job job)
    audit config now (decided_audit actor approval job planned)
    follow_plan actor approval is_approval job planned

  unfoldable pub expire_approval : Actor → ApprovalRow → Action World Reply
  expire_approval actor approval = do
    audit config now (record {
      actor_id = some actor.id;
      action = "approval.expired";
      target_type = "approval";
      target_id = some approval.id;
      details = fields (
          ("createdAt", num approval.created_at)
          ∷ ("ttlMinutes", num config.approval_ttl_minutes)
          ∷ []);
    })
    pure (refused 409 "approval expired; create and review a fresh execution plan")

  -- The decision is stored before anything is checked about its plan.
  unfoldable pub settle : Actor → ApprovalRow → Bool → String → Action World Reply
  settle actor approval is_approval reason = do
    updated ← settle_approval now approval.id (status_of is_approval) actor.id (some reason)
    found ← gets (λ w. get_job w.db approval.job_id)
    or_return (refused 500 "approval job not found") found
        (λ job. follow_decision actor updated is_approval job)

  -- The checks of the body, and of the deadline.
  unfoldable pub decide_pending : Actor → ApprovalRow → Decision → Action World Reply
  decide_pending actor approval body =
      or_return (refused 400 "decision must be approved or rejected") body.approved (λ is_approval.
        or_return (refused 400 "a reason is required for every decision") body.reason (λ reason.
          if trim reason == ""
          then pure (refused 400 "a reason is required for every decision")
          else if is_approval && ltb (deadline config approval) now
          then expire_approval actor approval
          else settle actor approval is_approval reason))

  unfoldable pub decide_plan_approval : Actor → String → Decision → Action World Reply
  decide_plan_approval actor id body w =
      or_return (refused 404 "approval not found") (get_approval w.db id)
        (λ approval.
          if approval.requested_by != actor.id
          then pure (refused 404 "approval not found")
          else if not (is_pending approval.status)
          then pure (refused 409 "approval already decided")
          else decide_pending actor approval body)
        w
