-- ===== src/Plan/Recording.antt =====
-- apps/api/src/app.ts: the records of a created plan that waits, is ready, or is blocked.
use wireguard_ops_cockpit.Base.{ℕ, String, true, false, none, some, [], ◌∷◌}
use wireguard_ops_cockpit.Base.Actions.{Action, pure, ◌>>=◌, ◌>>◌}
use wireguard_ops_cockpit.Base.Json.{str, fields, spread}
use wireguard_ops_cockpit.Plan.{
  Config, World, Job, audit, insert_job, insert_approval, patch_job, patch_plan, touch_session,
}
use wireguard_ops_cockpit.Plan.Reviewing.{plan_job_output, verdict_text}
use wireguard_ops_cockpit.Store.{PlanRow, PlanStatus, ApprovalRow, JobKind, JobStatus}
use wireguard_ops_cockpit.Store.Accounts.{Actor}
use wireguard_ops_cockpit.Store.Plans.{no_patch}

pub record Pending : Type 0 where
  pub plan : PlanRow
  pub job : Job
  pub approval : ApprovalRow

-- `if (plan.sessionId) recordSessionActivity(plan.sessionId)`
unfoldable pub touch_plan_session : ℕ → PlanRow → Action World (Unit {0})
touch_plan_session now plan = elim plan.session_id [
  | none ↦ pure tt
  | some id ↦ touch_session now id
]

module _ (config : Config) (now : ℕ) where
  unfoldable pub create_pending_approval_for_plan : PlanRow → Actor → String → Action World Pending
  create_pending_approval_for_plan plan actor reason = do
    waiting ← insert_job config now (record {
      session_id = plan.session_id;
      kind = JobKind.execution_plan;
      subject_id = some plan.id;
      status = JobStatus.pending_approval;
      requires_approval = true;
      approval_id = none;
      output = some (plan_job_output plan reason);
      completed_at = none;
    })
    approval ← insert_approval config now waiting.id actor.id reason
    job ← patch_job now waiting.id (record {
      status = JobStatus.pending_approval;
      approval_id = some approval.id;
      output = some (plan_job_output plan reason);
      completed_at = none;
    })
    updated ← patch_plan now plan.id (record no_patch {
      approval_id = some (some approval.id);
      status = some PlanStatus.pending_approval;
    })
    audit config now (record {
      actor_id = some actor.id;
      action = "execution.plan.pending_approval";
      target_type = "execution-plan";
      target_id = some updated.id;
      details = fields (("approvalId", str approval.id) ∷ ("requestedBy", str actor.username) ∷ []);
    })
    touch_plan_session now plan
    pure (record { plan = updated; job = job; approval = approval })

  unfoldable pub create_ready_plan_record : PlanRow → Actor → String → Action World Job
  create_ready_plan_record plan actor summary = do
    job ← insert_job config now (record {
      session_id = plan.session_id;
      kind = JobKind.execution_plan;
      subject_id = some plan.id;
      status = JobStatus.completed;
      requires_approval = false;
      approval_id = none;
      output = some (plan_job_output plan summary);
      completed_at = some now;
    })
    audit config now (record {
      actor_id = some actor.id;
      action = "execution.plan.ready";
      target_type = "execution-plan";
      target_id = some plan.id;
      details = fields (("jobId", str job.id) ∷ ("requestedBy", str actor.username) ∷ []);
    })
    touch_plan_session now plan
    pure job

  unfoldable pub create_blocked_plan_record : PlanRow → Actor → String → Action World Job
  create_blocked_plan_record plan actor summary = do
    job ← insert_job config now (record {
      session_id = plan.session_id;
      kind = JobKind.execution_plan;
      subject_id = some plan.id;
      status = JobStatus.failed;
      requires_approval = false;
      approval_id = none;
      output = some (
          spread (plan_job_output plan summary)
            (fields (("blockedReason", str plan.safety_review.summary) ∷ [])));
      completed_at = some now;
    })
    audit config now (record {
      actor_id = some actor.id;
      action = "execution.plan.blocked";
      target_type = "execution-plan";
      target_id = some plan.id;
      details = fields (
          ("jobId", str job.id)
          ∷ ("safetyVerdict", str (verdict_text plan.safety_review.verdict))
          ∷ ("requestedBy", str actor.username)
          ∷ []);
    })
    touch_plan_session now plan
    pure job
