-- ===== src/Plan/Deciding/Inner.antt =====
-- apps/api/src/app.ts: the steps of a decision that start no command and decide no approval.
use wireguard_ops_cockpit.Base.{ℕ, String, Bool, Option, none, some, string_eq, option_eq}
use wireguard_ops_cockpit.Base.Actions.{pure}
use wireguard_ops_cockpit.Base.Json.{Fields}
use wireguard_ops_cockpit.Plan.{Config, Job, touch_session}
use wireguard_ops_cockpit.Plan.Inner.{
  IsInner, bind-IsInner, pure-IsInner, patch_plan-IsInner, patch_job-IsInner, touch_session-IsInner,
  audit-IsInner,
}
use wireguard_ops_cockpit.Plan.Deciding.{expire_approval}
use wireguard_ops_cockpit.Plan.Approving.{
  Mismatch, block_plan, finish_plan, reject_plan, decide_other_job,
}
use wireguard_ops_cockpit.Store.{PlanRow, ApprovalRow}
use wireguard_ops_cockpit.Store.Accounts.{Actor}

module _ (config : Config) (now : ℕ) where
  pub block_plan-IsInner :
      (plan : PlanRow) (job : Job) (approval : ApprovalRow) (mismatch : Mismatch)
      (details extra : Fields)
      → IsInner (block_plan config now plan job approval mismatch details extra)
  unfolding block_plan
  block_plan-IsInner plan job approval mismatch details extra =
      bind-IsInner _ _ (patch_plan-IsInner now _ _)
        (λ blocked. bind-IsInner _ _ (patch_job-IsInner now _ _) (λ failed. pure-IsInner _))

  pub reject_plan-IsInner :
      (plan : PlanRow) (job : Job) (approval : ApprovalRow)
      → IsInner (reject_plan config now plan job approval)
  unfolding reject_plan
  reject_plan-IsInner plan job approval =
      bind-IsInner _ _ (patch_plan-IsInner now _ _)
        (λ rejected. bind-IsInner _ _ (patch_job-IsInner now _ _) (λ ended. pure-IsInner _))

  pub expire_approval-IsInner :
      (actor : Actor) (approval : ApprovalRow) → IsInner (expire_approval config now actor approval)
  unfolding expire_approval
  expire_approval-IsInner actor approval =
      bind-IsInner _ _ (audit-IsInner config now _) (λ t. pure-IsInner _)

  pub finish_plan-IsInner :
      (job : Job) (approval : ApprovalRow) (summary : String) (executed : PlanRow × Job)
      → IsInner (finish_plan config now job approval summary executed)
  unfolding finish_plan
  finish_plan-IsInner job approval summary executed =
      bind-IsInner _ _ (patch_job-IsInner now _ _) (λ ended. pure-IsInner _)

  touch-IsInner :
      (o : Option String) → IsInner (elim o [ none ↦ pure tt | some id ↦ touch_session now id ])
  touch-IsInner none = pure-IsInner tt
  touch-IsInner (some id) = touch_session-IsInner now id

  pub decide_other_job-IsInner :
      (job : Job) (approval : ApprovalRow) (is_approval : Bool)
      → IsInner (decide_other_job config now job approval is_approval)
  unfolding decide_other_job
  decide_other_job-IsInner job approval is_approval =
      bind-IsInner _ _ (patch_job-IsInner now _ _)
        (λ updated. bind-IsInner _ _ (touch-IsInner updated.session_id) (λ t. pure-IsInner _))
