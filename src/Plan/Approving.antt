-- ===== src/Plan/Approving.antt =====
-- apps/api/src/app.ts, POST /api/approvals/:approvalId/decision: what becomes of the plan and the job of
-- a decided approval.
use mathlib.Core.Option
use wireguard_ops_cockpit.Base.{
  ℕ, String, Bool, Option, none, some, List, [], ◌∷◌, ◌==◌, ◌!=◌, ◌||◌, if◌then◌else◌, string_eq,
  option_eq, nat_eq,
}
use wireguard_ops_cockpit.Base.Actions.{Action, pure, or_return, ◌>>=◌, ◌>>◌}
use wireguard_ops_cockpit.Base.Json.{Json, Fields, str, fields, spread, end}
use wireguard_ops_cockpit.Plan.{
  Config, World, Job, Reply, refused, patch_job, patch_plan, touch_session, input_text,
}
use wireguard_ops_cockpit.Plan.Reviewing.{review, recompute_plan_hash, plan_job_output}
use wireguard_ops_cockpit.Plan.Executing.{execute_runbook_plan, execute_agent_plan}
use wireguard_ops_cockpit.Registry.{find_runbook, find_agent}
use wireguard_ops_cockpit.Registry.Encoding.{
  compute_runbook_version_hash, compute_agent_manifest_digest, str_or_null,
}
use wireguard_ops_cockpit.Store.{
  PlanRow, PlanStatus, PlanTarget, runbook, agent, ApprovalRow, JobStatus, Verdict,
}
use wireguard_ops_cockpit.Store.Accounts.{Actor}
use wireguard_ops_cockpit.Store.Audits.{text_or_empty}
use wireguard_ops_cockpit.Store.Plans.{PlanPatch, no_patch}

-- A refusal before dispatch: the texts of the review, the output, the error and the reply.
pub record Mismatch : Type 0 where
  pub summary : String
  pub output_summary : String
  pub error : String
  pub message : String

-- The patch of a plan that is about to be dispatched.
abbrev pub approved_patch : PlanRow → ApprovalRow → PlanPatch
approved_patch plan approval = record no_patch {
  approval_id = some (some approval.id);
  pre_execution_hook = some (
      review none Verdict.passed
        "Pre-exec hook revalidated the exact approved plan hash immediately before dispatch."
        (fields (("planHash", str plan.plan_hash) ∷ [])));
}

module _ (config : Config) (now : ℕ) where
  -- The plan is blocked and its job failed.
  unfoldable pub block_plan :
      PlanRow → Job → ApprovalRow → Mismatch → Fields → Fields → Action World Reply
  unfolding plan_job_output review
  block_plan plan job approval mismatch details extra = do
    blocked ← patch_plan now plan.id (record no_patch {
      status = some PlanStatus.blocked;
      pre_execution_hook = some (review none Verdict.blocked mismatch.summary details);
    })
    failed ← patch_job now job.id (record {
      status = JobStatus.failed;
      approval_id = some approval.id;
      output = some (
          spread (plan_job_output blocked mismatch.output_summary) (
            spread
              (fields (
                ("approvalDecision", str "approved") ∷ ("integrityError", str mismatch.error) ∷ []))
              extra));
      completed_at = some (some now);
    })
    pure (record {
      code = 409;
      message = mismatch.message;
      approval = some approval;
      plan = some blocked;
      job = some failed;
    })

  -- The job of a dispatched plan is completed.
  unfoldable pub finish_plan : Job → ApprovalRow → String → PlanRow × Job → Action World Reply
  finish_plan job approval summary executed = do
    plan_job ← patch_job now job.id (record {
      status = JobStatus.completed;
      approval_id = some approval.id;
      output = some (
          spread (plan_job_output executed.0 summary) (
            fields
              (("approvalDecision", str "approved") ∷ ("executedJobId", str executed.1.id) ∷ [])));
      completed_at = some (some now);
    })
    pure (record {
      code = 200;
      message = "";
      approval = some approval;
      plan = some executed.0;
      job = some executed.1;
    })

  -- The approval is noted on the plan, which is dispatched, and its job completed.
  unfoldable pub dispatch_plan :
      PlanRow
      → Job
      → ApprovalRow
      → String
      → (PlanRow → Action World (PlanRow × Job))
      → Action World Reply
  dispatch_plan plan job approval summary execute = do
    approved_plan ← patch_plan now plan.id (approved_patch plan approval)
    executed ← execute approved_plan
    finish_plan job approval summary executed

  -- The plan is dispatched if the digest that was reviewed is the current one.
  unfoldable pub dispatch_reviewed :
      PlanRow
      → Job
      → ApprovalRow
      → Option String
      → String
      → List (String × Json)
      → Mismatch
      → String
      → (PlanRow → Action World (PlanRow × Job))
      → Action World Reply
  dispatch_reviewed plan job approval reviewed current hashes mismatch summary execute =
      if text_or_empty reviewed == "" || reviewed != some current
      then block_plan plan job approval mismatch (fields hashes) (fields hashes)
      else dispatch_plan plan job approval summary execute

  unfoldable pub approve_runbook : PlanRow → Job → ApprovalRow → Actor → Action World Reply
  approve_runbook plan job approval actor w =
      or_return (refused 500 "runbook not found for approved plan")
        (find_runbook w.registry plan.target_id)
        (λ found.
          let current = compute_runbook_version_hash config.digest w.registry found in
          let reviewed = input_text "runbookVersionHash" plan in
          dispatch_reviewed plan job approval reviewed current
            (("approvedRunbookVersionHash", str_or_null reviewed)
              ∷ ("currentRunbookVersionHash", str current)
              ∷ [])
            (record {
              summary =
                  "Pre-exec hook detected a reviewed runbook version mismatch and refused to dispatch the approved action.";
              output_summary = "Execution plan runbook integrity check failed before dispatch.";
              error = "runbook version hash mismatch";
              message = "runbook integrity check failed";
            })
            "Execution plan approved and dispatched into the host tmux executor."
            (λ p. execute_runbook_plan config now p actor found))
        w

  unfoldable pub approve_agent : PlanRow → Job → ApprovalRow → Actor → Action World Reply
  approve_agent plan job approval actor w =
      or_return (refused 500 "agent not found for approved plan")
        (find_agent w.registry plan.target_id)
        (λ found.
          let current = compute_agent_manifest_digest config.digest found in
          let reviewed = input_text "agentManifestDigest" plan in
          dispatch_reviewed plan job approval reviewed current
            (("approvedAgentManifestDigest", str_or_null reviewed)
              ∷ ("currentAgentManifestDigest", str current)
              ∷ [])
            (record {
              summary =
                  "Pre-exec hook detected an agent manifest mismatch and refused to dispatch the approved launch.";
              output_summary = "Execution plan agent integrity check failed before dispatch.";
              error = "agent manifest digest mismatch";
              message = "agent integrity check failed";
            })
            "Execution plan approved and dispatched."
            (λ p. execute_agent_plan config now p actor found ""))
        w

  -- The target that the plan names is looked up and compared with the reviewed one.
  unfoldable pub approve_target :
      PlanTarget → PlanRow → Job → ApprovalRow → Actor → Action World Reply
  approve_target runbook = approve_runbook
  approve_target agent = approve_agent

  unfoldable pub approve_plan : PlanRow → Job → ApprovalRow → Actor → Action World Reply
  approve_plan plan job approval actor =
      let expected = recompute_plan_hash config plan in
      if expected != plan.plan_hash
      then block_plan plan job approval
          (record {
            summary =
                "Pre-exec hook detected a plan hash mismatch and refused to dispatch the approved action.";
            output_summary = "Execution plan integrity check failed before dispatch.";
            error = "plan hash mismatch";
            message = "plan integrity check failed";
          })
          (fields (("expectedPlanHash", str expected) ∷ ("planHash", str plan.plan_hash) ∷ [])) end
      else approve_target plan.target_type plan job approval actor

  unfoldable pub reject_plan : PlanRow → Job → ApprovalRow → Action World Reply
  reject_plan plan job approval = do
    rejected ← patch_plan now plan.id (record no_patch {
      status = some PlanStatus.rejected;
      approval_id = some (some approval.id);
      post_execution_hook = some (
          review none Verdict.blocked
            "Post-exec hook recorded a human rejection before any bounded executor was allowed to run."
            (fields (("approvalId", str approval.id) ∷ [])));
    })
    ended ← patch_job now job.id (record {
      status = JobStatus.rejected;
      approval_id = some approval.id;
      output = some (
          spread (plan_job_output rejected "Execution plan rejected before dispatch.")
            (fields (("approvalDecision", str "rejected") ∷ [])));
      completed_at = some (some now);
    })
    pure (record {
      code = 200;
      message = "";
      approval = some approval;
      plan = some rejected;
      job = some ended;
    })

  -- The job of an approval that belongs to no plan.
  unfoldable pub decide_other_job : Job → ApprovalRow → Bool → Action World Reply
  decide_other_job job approval is_approval = do
    updated ← patch_job now job.id (record {
      status = if is_approval then JobStatus.completed else JobStatus.rejected;
      approval_id = some approval.id;
      output = some (
          spread (Option.get_or job.output end) (
            if is_approval
            then fields (
                ("summary", str "Execution was approved and dispatched.")
                ∷ ("approvalDecision", str "approved")
                ∷ [])
            else fields (
                ("approvalDecision", str "rejected")
                ∷ ("summary", str "Execution was rejected before any host-facing action could run.")
                ∷ [])));
      completed_at = some (some now);
    })
    elim updated.session_id [ none ↦ pure tt | some id ↦ touch_session now id ]
    pure (record {
      code = 200;
      message = "";
      approval = some approval;
      plan = none;
      job = some updated;
    })
