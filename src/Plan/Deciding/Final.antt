-- ===== src/Plan/Deciding/Final.antt =====
-- apps/api/src/app.ts: an approval is decided once.
use mathlib.Core.Option
use text.Mathlib.TextEquality.{eq_iff}
use wireguard_ops_cockpit.Base.{
  ℕ, ◌≤◌, ◌≡◌, ◌≢◌, refl, sym, ap, ◌∙◌, String, Bool, true, false, not, Option, none, some, List,
  ◌==◌, ◌!=◌, ◌||◌, if-cases, string_eq, option_eq, arith, inl, inr,
}
use wireguard_ops_cockpit.Base.Actions.{
  Action, gets, ◌>>=◌, bound, or_return, or_return-cases, Result-cases,
}
use wireguard_ops_cockpit.Base.Json.{Json, fields}
use wireguard_ops_cockpit.Base.Text.{trim}
use wireguard_ops_cockpit.Base.Tables.{by_key, by_key-key}
use wireguard_ops_cockpit.Plan.{Config, World, Job, Reply, refused, patch_plan, settle_approval}
use wireguard_ops_cockpit.Plan.Reviewing.{recompute_plan_hash}
use wireguard_ops_cockpit.Plan.Inner.{patch_plan-IsInner, audit-IsInner}
use wireguard_ops_cockpit.Plan.Dispatching.{
  KeepsApprovals, bind-KeepsApprovals, IsInner-KeepsApprovals, execute_runbook_plan-KeepsApprovals,
  execute_agent_plan-KeepsApprovals,
}
use wireguard_ops_cockpit.Plan.Deciding.{
  Decision, follow_plan, follow_decision, settle, decide_pending, decide_plan_approval, plan_of_job,
  deadline, is_pending, is_plan_job, status_of,
}
use wireguard_ops_cockpit.Plan.Deciding.{decided_audit}
use wireguard_ops_cockpit.Plan.Approving.{
  Mismatch, dispatch_plan, dispatch_reviewed, approved_patch, approve_runbook, approve_agent,
  approve_target, approve_plan,
}
use wireguard_ops_cockpit.Plan.Deciding.Inner.{
  block_plan-IsInner, reject_plan-IsInner, decide_other_job-IsInner, finish_plan-IsInner,
}
use wireguard_ops_cockpit.Registry.{find_runbook, find_agent}
use wireguard_ops_cockpit.Store.{PlanRow, PlanTarget, runbook, agent, ApprovalRow}
use wireguard_ops_cockpit.Store.Accounts.{Actor}
use wireguard_ops_cockpit.Store.Approvals.{
  get_approval, decide_approval, decided, get_approval-decide_approval, approval_id,
}
use wireguard_ops_cockpit.Store.Audits.{text_or_empty}
use wireguard_ops_cockpit.Store.Jobs.{get_job}

gets-KeepsApprovals : {A : Type 0} (f : World → A) → KeepsApprovals (gets f)
unfolding KeepsApprovals
gets-KeepsApprovals f w = refl

after-KeepsApprovals :
    {A B : Type 0} (m : Action World A) (k : A → Action World B) (w : World)
    → ((a : A) → KeepsApprovals (k a))
    → ((m >>= k) w).1.db.approvals ≡ (m w).1.db.approvals
unfolding KeepsApprovals
after-KeepsApprovals m k w hk = elim (Result-cases (m w)) [
  | inl (a, s, e) ↦
      ap (λ p. (bound k p).1.db.approvals) e ∙ hk a s ∙ sym (ap (λ p. p.1.db.approvals) e)
  | inr (message, s, e) ↦
      ap (λ p. (bound k p).1.db.approvals) e ∙ sym (ap (λ p. p.1.db.approvals) e)
]

return-KeepsApprovals :
    {A : Type 0} (reply : Reply) (o : Option A) (k : A → Action World Reply)
    → ((a : A) → KeepsApprovals (k a))
    → KeepsApprovals (or_return reply o k)
unfolding KeepsApprovals
return-KeepsApprovals reply none k h w = refl
return-KeepsApprovals reply (some a) k h w = h a w

module _ (config : Config) (now : ℕ) where
  dispatch_plan-KeepsApprovals :
      (plan : PlanRow) (job : Job) (approval : ApprovalRow) (summary : String)
      (execute : PlanRow → Action World (PlanRow × Job))
      → ((p : PlanRow) → KeepsApprovals (execute p))
      → KeepsApprovals (dispatch_plan config now plan job approval summary execute)
  unfolding dispatch_plan
  dispatch_plan-KeepsApprovals plan job approval summary execute h =
      bind-KeepsApprovals (patch_plan now plan.id (approved_patch plan approval)) _
        (IsInner-KeepsApprovals _ (patch_plan-IsInner now plan.id (approved_patch plan approval)))
        (λ p. bind-KeepsApprovals (execute p) _ (h p) (λ executed.
          IsInner-KeepsApprovals _ (finish_plan-IsInner config now job approval summary executed)))

  dispatch_reviewed-KeepsApprovals :
      (plan : PlanRow) (job : Job) (approval : ApprovalRow) (reviewed : Option String)
      (current : String) (hashes : List (String × Json)) (mismatch : Mismatch) (summary : String)
      (execute : PlanRow → Action World (PlanRow × Job))
      → ((p : PlanRow) → KeepsApprovals (execute p))
      → KeepsApprovals (
          dispatch_reviewed config now plan job approval reviewed current hashes mismatch summary
            execute)
  unfolding dispatch_reviewed
  dispatch_reviewed-KeepsApprovals plan job approval reviewed current hashes mismatch summary
        execute h =
      if-cases KeepsApprovals (text_or_empty reviewed == "" || reviewed != some current) _ _
        (λ differs. IsInner-KeepsApprovals _ (
          block_plan-IsInner config now plan job approval mismatch (fields hashes) (fields hashes)))
        (λ agrees. dispatch_plan-KeepsApprovals plan job approval summary execute h)

  approve_target-KeepsApprovals :
      (target : PlanTarget) (plan : PlanRow) (job : Job) (approval : ApprovalRow) (actor : Actor)
      → KeepsApprovals (approve_target config now target plan job approval actor)
  unfolding approve_target approve_runbook approve_agent KeepsApprovals
  approve_target-KeepsApprovals runbook plan job approval actor w =
      return-KeepsApprovals _ (find_runbook w.registry plan.target_id) _
        (λ found.
          dispatch_reviewed-KeepsApprovals plan job approval _ _ _ _ _ _
            (λ p. execute_runbook_plan-KeepsApprovals config now p actor found))
        w
  approve_target-KeepsApprovals agent plan job approval actor w =
      return-KeepsApprovals _ (find_agent w.registry plan.target_id) _
        (λ found.
          dispatch_reviewed-KeepsApprovals plan job approval _ _ _ _ _ _
            (λ p. execute_agent_plan-KeepsApprovals config now p actor found ""))
        w

  approve_plan-KeepsApprovals :
      (plan : PlanRow) (job : Job) (approval : ApprovalRow) (actor : Actor)
      → KeepsApprovals (approve_plan config now plan job approval actor)
  unfolding approve_plan
  approve_plan-KeepsApprovals plan job approval actor =
      if-cases KeepsApprovals (recompute_plan_hash config plan != plan.plan_hash) _ _
        (λ differs.
          IsInner-KeepsApprovals _ (block_plan-IsInner config now plan job approval _ _ _))
        (λ same. approve_target-KeepsApprovals plan.target_type plan job approval actor)

  follow_plan-KeepsApprovals :
      (actor : Actor) (approval : ApprovalRow) (is_approval : Bool) (job : Job)
      (planned : Option PlanRow)
      → KeepsApprovals (follow_plan config now actor approval is_approval job planned)
  unfolding follow_plan
  follow_plan-KeepsApprovals actor approval is_approval job planned =
      if-cases KeepsApprovals (not (is_plan_job job.kind)) _ _
        (λ other.
          IsInner-KeepsApprovals _ (decide_other_job-IsInner config now job approval is_approval))
        (λ is_plan. return-KeepsApprovals _ planned _ (λ plan.
          if-cases KeepsApprovals is_approval _ _
            (λ approved. approve_plan-KeepsApprovals plan job approval actor)
            (λ rejected.
              IsInner-KeepsApprovals _ (reject_plan-IsInner config now plan job approval))))

  follow_decision-KeepsApprovals :
      (actor : Actor) (approval : ApprovalRow) (is_approval : Bool) (job : Job)
      → KeepsApprovals (follow_decision config now actor approval is_approval job)
  unfolding follow_decision
  follow_decision-KeepsApprovals actor approval is_approval job =
      bind-KeepsApprovals (gets (plan_of_job job)) _ (gets-KeepsApprovals (plan_of_job job))
        (λ planned.
          bind-KeepsApprovals _ _
            (IsInner-KeepsApprovals _
              (audit-IsInner config now (decided_audit actor approval job planned)))
            (λ t. follow_plan-KeepsApprovals actor approval is_approval job planned))

  -- The stored decision stays, whatever follows it.
  settle-lem :
      (actor : Actor) (approval : ApprovalRow) (is_approval : Bool) (reason : String) (w : World)
      → (settle config now actor approval is_approval reason w).1.db.approvals
        ≡ (decide_approval w.db approval.id
            (status_of is_approval)
            actor.id
            (some reason)
            now).approvals
  unfolding settle settle_approval
  settle-lem actor approval is_approval reason w =
      after-KeepsApprovals
        (settle_approval now approval.id (status_of is_approval) actor.id (some reason)) _ w
        (λ updated.
          bind-KeepsApprovals (gets (λ v. get_job v.db approval.job_id)) _
            (gets-KeepsApprovals (λ v. get_job v.db approval.job_id))
            (λ found.
              return-KeepsApprovals (refused 500 "approval job not found") found _
                (λ job. follow_decision-KeepsApprovals actor updated is_approval job)))

is_settled : (b : Bool) → is_pending (status_of b) ≡ false
is_settled true = refl
is_settled false = refl

-- An approval that was decided is not decided again.
decided_lem :
    (config : Config) (now : ℕ) (actor : Actor) (id : String) (body : Decision) (w : World)
    (approval : ApprovalRow)
    → get_approval w.db id ≡ some approval
    → is_pending approval.status ≡ false
    → (decide_plan_approval config now actor id body w).1 ≡ w
unfolding decide_plan_approval
decided_lem config now actor id body w approval found settled =
    or_return-cases (λ m. (m w).1 ≡ w) _ (get_approval w.db id) _ (λ missing. refl)
      (λ a e.
        if-cases (λ (m : Action World Reply). (m w).1 ≡ w) (a.requested_by != actor.id) _ _
          (λ foreign. refl)
          (λ own.
            if-cases (λ (m : Action World Reply). (m w).1 ≡ w) (not (is_pending a.status)) _ _
              (λ closed. refl) (λ waiting. absurd (ground arith))))

module _ (config : Config) (now : ℕ) (actor : Actor) (id reason : String) (is_approval : Bool)
    (approval : ApprovalRow) (w : World) (found : get_approval w.db id ≡ some approval)
    (requester : approval.requested_by ≡ actor.id) (waiting : is_pending approval.status ≡ true)
    (filled : trim reason ≢ "") (timely : is_approval ≡ true → now ≤ deadline config approval) where
  abbrev body : Decision
  body = record { approved = some is_approval; reason = some reason }

  abbrev row : ApprovalRow
  row = decided (status_of is_approval) actor.id (some reason) now approval

  settle-row :
      get_approval (settle config now actor approval is_approval reason w).1.db id ≡ some row
  unfolding get_approval
  settle-row =
      let same : approval.id ≡ id = by_key-key approval_id id w.db.approvals approval found in
      ap (λ rows. by_key approval_id id rows)
        (settle-lem config now actor approval is_approval reason w)
      ∙ ap
          (λ k.
            get_approval (decide_approval w.db k (status_of is_approval) actor.id (some reason) now)
              id)
          same
      ∙ (get_approval-decide_approval w.db id id (status_of is_approval) actor.id (some reason)
          now).0
      ∙ ap (Option.map (decided (status_of is_approval) actor.id (some reason) now)) found

  decide-settle :
      decide_plan_approval config now actor id body w
      ≡ settle config now actor approval is_approval reason w
  unfolding decide_plan_approval decide_pending
  decide-settle = ground (arith, eq_iff approval.requested_by actor.id, eq_iff (trim reason) "")

  -- A pending approval that its requester decides with a reason, and in time if the decision is an
  -- approval, is stored as decided so, by that actor, whatever becomes of its plan; and no later
  -- decision about it changes anything.
  pub decide_plan_approval-final :
      (get_approval (decide_plan_approval config now actor id body w).1.db id ≡ some row)
      × ((other_config : Config) (later : ℕ) (other : Actor) (second : Decision)
          → (decide_plan_approval other_config later other id second
              (decide_plan_approval config now actor id body w).1).1
            ≡ (decide_plan_approval config now actor id body w).1)
  decide_plan_approval-final =
      let stored : get_approval (decide_plan_approval config now actor id body w).1.db id
          ≡ some row =
        ap (λ p. get_approval p.1.db id) decide-settle ∙ settle-row in
      (
        stored,
        λ other_config later other second.
            decided_lem other_config later other id second _ row stored (is_settled is_approval),
      )
