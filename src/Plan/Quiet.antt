-- ===== src/Plan/Quiet.antt =====
-- apps/api/src/app.ts: the records of a plan start no command; and which plans need no approval.
use wireguard_ops_cockpit.Base.{ℕ, ◌≡◌, ◌≢◌, refl, ap, String, false, none, some, arith}
use wireguard_ops_cockpit.Base.Actions.{Action, pure, ◌>>=◌, Keeps, Keeps->>=}
use wireguard_ops_cockpit.Plan.{Config, World, insert_approval, touch_session}
use wireguard_ops_cockpit.Plan.Creating.{is_blocked}
use wireguard_ops_cockpit.Plan.Recording.{
  touch_plan_session, create_pending_approval_for_plan, create_ready_plan_record,
  create_blocked_plan_record,
}
use wireguard_ops_cockpit.Plan.Inner.{
  IsInner, bind-IsInner, pure-IsInner, audit-IsInner, insert_job-IsInner, patch_job-IsInner,
  patch_plan-IsInner, touch_session-IsInner,
}
use wireguard_ops_cockpit.Plan.Reviewing.{resolve_runbook_plan_state}
use wireguard_ops_cockpit.Registry.{Runbook}
use wireguard_ops_cockpit.Store.{PlanRow, Verdict}
use wireguard_ops_cockpit.Store.Accounts.{Actor}

-- The call starts nothing.
unfoldable pub IsQuiet : {A : Type 0} → Action World A → Type 0
IsQuiet m = Keeps (λ w. w.launched) m

pub pure-IsQuiet : {A : Type 0} (a : A) → IsQuiet (pure a)
unfolding IsQuiet
pure-IsQuiet a w = refl

pub bind-IsQuiet :
    {A B : Type 0} (m : Action World A) (k : A → Action World B)
    → IsQuiet m
    → ((a : A) → IsQuiet (k a))
    → IsQuiet (m >>= k)
unfolding IsQuiet
bind-IsQuiet m k hm hk = Keeps->>= (λ w. w.launched) m k hm hk

pub IsInner-IsQuiet : {A : Type 0} (m : Action World A) → IsInner m → IsQuiet m
unfolding IsInner IsQuiet
IsInner-IsQuiet m inner w = ap (λ o. o.0) (inner w)

module _ (config : Config) (now : ℕ) where
  insert_approval-IsQuiet :
      (job_id requested_by reason : String)
      → IsQuiet (insert_approval config now job_id requested_by reason)
  unfolding insert_approval IsQuiet
  insert_approval-IsQuiet job_id requested_by reason w = refl

  touch_plan_session-IsInner : (plan : PlanRow) → IsInner (touch_plan_session now plan)
  unfolding touch_plan_session
  touch_plan_session-IsInner plan =
      elim plan.session_id
        as (λ o. IsInner (elim o [ none ↦ pure tt | some id ↦ touch_session now id ])) [
          | none ↦ pure-IsInner tt
          | some id ↦ touch_session-IsInner now id
        ]

  pub create_pending_approval_for_plan-IsQuiet :
      (plan : PlanRow) (actor : Actor) (reason : String)
      → IsQuiet (create_pending_approval_for_plan config now plan actor reason)
  unfolding create_pending_approval_for_plan
  create_pending_approval_for_plan-IsQuiet plan actor reason =
      bind-IsQuiet _ _ (IsInner-IsQuiet _ (insert_job-IsInner config now _)) (λ waiting.
        bind-IsQuiet _ _ (insert_approval-IsQuiet waiting.id actor.id reason) (λ approval.
          IsInner-IsQuiet _ (
            bind-IsInner _ _ (patch_job-IsInner now _ _) (λ job.
              bind-IsInner _ _ (patch_plan-IsInner now _ _) (λ updated.
                bind-IsInner _ _ (audit-IsInner config now _) (λ t.
                  bind-IsInner _ _ (touch_plan_session-IsInner plan) (λ t. pure-IsInner _)))))))

  pub create_ready_plan_record-IsInner :
      (plan : PlanRow) (actor : Actor) (summary : String)
      → IsInner (create_ready_plan_record config now plan actor summary)
  unfolding create_ready_plan_record
  create_ready_plan_record-IsInner plan actor summary =
      bind-IsInner _ _ (insert_job-IsInner config now _) (λ job.
        bind-IsInner _ _ (audit-IsInner config now _)
          (λ t. bind-IsInner _ _ (touch_plan_session-IsInner plan) (λ t. pure-IsInner _)))

  pub create_blocked_plan_record-IsInner :
      (plan : PlanRow) (actor : Actor) (summary : String)
      → IsInner (create_blocked_plan_record config now plan actor summary)
  unfolding create_blocked_plan_record
  create_blocked_plan_record-IsInner plan actor summary =
      bind-IsInner _ _ (insert_job-IsInner config now _) (λ job.
        bind-IsInner _ _ (audit-IsInner config now _)
          (λ t. bind-IsInner _ _ (touch_plan_session-IsInner plan) (λ t. pure-IsInner _)))

-- A plan is not blocked and needs no approval only if the runbook needs none, and the review was
-- neither refused, nor left out, nor escalated.
pub resolve_runbook_plan_state-lem :
    (runbook : Runbook) (verdict : Verdict)
    → is_blocked (resolve_runbook_plan_state runbook verdict).0 ≡ false
    → (resolve_runbook_plan_state runbook verdict).1 ≡ false
    → (runbook.requires_approval ≡ false)
      × (verdict ≢ Verdict.blocked)
      × (verdict ≢ Verdict.not_run)
      × (verdict ≢ Verdict.approval_required)
unfolding resolve_runbook_plan_state
resolve_runbook_plan_state-lem runbook Verdict.blocked allowed free = absurd (ground arith)
resolve_runbook_plan_state-lem runbook Verdict.not_run allowed free = absurd (ground arith)
resolve_runbook_plan_state-lem runbook Verdict.approval_required allowed free =
    absurd (ground arith)
resolve_runbook_plan_state-lem runbook Verdict.passed allowed free = ground arith
resolve_runbook_plan_state-lem runbook Verdict.pending allowed free = ground arith
