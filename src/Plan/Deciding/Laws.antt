-- ===== src/Plan/Deciding/Laws.antt =====
-- apps/api/src/app.ts: what a decision that starts a command has checked, and that an approval is
-- decided once.
use mathlib.Core.Path.{subst}
use text.Mathlib.TextEquality.{eq_iff}
use wireguard_ops_cockpit.Base.{
  not, ◌&&◌, ltb, ℕ, ◌≤◌, ◌≡◌, ◌≢◌, refl, sym, ap, ◌∙◌, String, Bool, true, some, List, ◌==◌, ◌!=◌,
  if-cases, string_eq, option_eq, arith, Bool-cases, Option-cases, ◌⊎◌, inl, inr,
}
use wireguard_ops_cockpit.Base.Actions.{
  Action, gets, ◌>>=◌, bound, found_or, or_return, or_return-cases,
}
use wireguard_ops_cockpit.Base.Text.{trim}
use wireguard_ops_cockpit.Base.Tables.{by_key-key}
use wireguard_ops_cockpit.Plan.{Config, World, Launch, Job, Reply, audit, settle_approval, refused}
use wireguard_ops_cockpit.Plan.Reviewing.{recompute_plan_hash}
use wireguard_ops_cockpit.Plan.Executing.{session_of_plan}
use wireguard_ops_cockpit.Plan.Inner.{IsInner}
use wireguard_ops_cockpit.Plan.Dispatching.{StartsIn}
use wireguard_ops_cockpit.Plan.Deciding.{
  Decision, follow_plan, follow_decision, settle, decide_pending, decide_plan_approval, plan_of_job,
  deadline, is_pending, status_of, is_plan_job,
}
use wireguard_ops_cockpit.Plan.Deciding.{decided_audit}
use wireguard_ops_cockpit.Store.{PlanRow, SessionRow, ApprovalRow}
use wireguard_ops_cockpit.Store.Accounts.{Actor}
use wireguard_ops_cockpit.Store.Audits.{create_audit}
use wireguard_ops_cockpit.Store.Approvals.{get_approval, decide_approval}
use wireguard_ops_cockpit.Store.Jobs.{get_job}
use wireguard_ops_cockpit.Store.Sessions.{get_session_for_actor}
use wireguard_ops_cockpit.Store.Plans.{get_execution_plan, plan_id}
use wireguard_ops_cockpit.Plan.Deciding.Inner.{
  reject_plan-IsInner, expire_approval-IsInner, decide_other_job-IsInner,
}
use wireguard_ops_cockpit.Plan.Deciding.Reviewed.{
  IsReviewedAs, StartsReviewed, approve_plan-StartsReviewed,
}

plan_of_job-present :
    (job : Job) (w : World) (plan : PlanRow)
    → plan_of_job job w ≡ some plan
    → get_execution_plan w.db plan.id ≡ some plan
unfolding get_execution_plan
plan_of_job-present job w plan h = elim (Option-cases job.subject_id) [
  | inl missing ↦ absurd (ground arith)
  | inr (id, subject) ↦ elim (Bool-cases (id == "")) [
    | inl blank ↦ absurd (ground arith)
    | inr named ↦
        let found : get_execution_plan w.db id ≡ some plan = ground arith in
        subst (λ k. get_execution_plan w.db k ≡ some plan)
          (sym (by_key-key plan_id id w.db.plans plan found)) found
  ]
]

module _ (config : Config) (now : ℕ) (actor : Actor) (w : World) where
  follow_plan-StartsReviewed :
      (approval : ApprovalRow) (is_approval : Bool) (job : Job)
      → ((follow_plan config now actor approval is_approval job (plan_of_job job w) w).1.launched
          ≡ w.launched)
        ⊎ ((is_approval ≡ true)
            × (plan : PlanRow) × (plan_of_job job w ≡ some plan)
            × StartsReviewed config plan w
                (follow_plan config now actor approval is_approval job
                  (plan_of_job job w)
                  w).1.launched)
  unfolding follow_plan IsInner
  follow_plan-StartsReviewed approval is_approval job =
      let Goal : Action World Reply → Type 0 = λ m.
        ((m w).1.launched ≡ w.launched)
        ⊎ ((is_approval ≡ true)
            × (plan : PlanRow) × (plan_of_job job w ≡ some plan)
            × StartsReviewed config plan w (m w).1.launched) in
      if-cases Goal (not (is_plan_job job.kind)) _ _
        (λ other.
          inl (ap (λ o. o.0) (decide_other_job-IsInner config now job approval is_approval w)))
        (λ planned.
          or_return-cases Goal _ (plan_of_job job w) _ (λ missing. inl refl)
            (λ plan found.
              if-cases Goal is_approval _ _
                (λ approved. inr (
                  approved,
                  plan,
                  found,
                  approve_plan-StartsReviewed config now plan job approval w
                      (plan_of_job-present job w plan found) actor,
                ))
                (λ rejected.
                  inl (ap (λ o. o.0) (reject_plan-IsInner config now plan job approval w)))))

module _ (config : Config) (now : ℕ) (actor : Actor) (w : World) where
  abbrev StartsDecided : ApprovalRow → Bool → List Launch → Type 0
  StartsDecided approval is_approval after =
      (after ≡ w.launched)
      ⊎ ((is_approval ≡ true)
          × (job : Job) × (get_job w.db approval.job_id ≡ some job)
          × (plan : PlanRow) × (plan_of_job job w ≡ some plan)
          × StartsReviewed config plan w after)

  settle-StartsDecided :
      (approval : ApprovalRow) (is_approval : Bool) (reason : String)
      → StartsDecided approval is_approval
          (settle config now actor approval is_approval reason w).1.launched
  unfolding settle settle_approval follow_decision audit create_audit decide_approval get_job
      get_execution_plan session_of_plan get_session_for_actor
  settle-StartsDecided approval is_approval reason =
      let w1 : World = record w {
        db = decide_approval w.db approval.id (status_of is_approval) actor.id (some reason) now;
      } in
      let rest : ApprovalRow → Action World Reply = λ updated.
        gets (λ v. get_job v.db approval.job_id) >>= λ found.
        or_return (refused 500 "approval job not found") found
          (λ job. follow_decision config now actor updated is_approval job) in
      elim (Option-cases (get_approval w1.db approval.id)) [
        | inl gone ↦
            inl (ap (λ o. (bound rest (found_or "approval not found" o, w1)).1.launched) gone)
        | inr (updated, back) ↦
            subst (StartsDecided approval is_approval)
              (sym (ap (λ o. (bound rest (found_or "approval not found" o, w1)).1.launched) back))
              (or_return-cases (λ m. StartsDecided approval is_approval (m w1).1.launched) _
                (get_job w.db approval.job_id) _ (λ missing. inl refl)
                (λ job found.
                  let planned = plan_of_job job w1 in
                  let w2 = (audit config now (decided_audit actor updated job planned) w1).1 in
                  elim (follow_plan-StartsReviewed config now actor w2 updated is_approval job) [
                    | inl idle ↦ inl idle
                    | inr (approved, plan, present, starts) ↦
                        inr (approved, job, found, plan, present, starts)
                  ]))
      ]

-- The approval was pending and in time, the decision approves it with a reason, and what was started
-- is one command in the session of the reviewed plan.
abbrev pub ApprovedStart :
    Config → ℕ → Actor → Decision → ApprovalRow → World → List Launch → Type 0
ApprovedStart config now actor body approval w after =
    (reason : String) × (job : Job) × (plan : PlanRow) × (session : SessionRow)
    × (approval.requested_by ≡ actor.id)
    × (is_pending approval.status ≡ true)
    × (body.approved ≡ some true)
    × (body.reason ≡ some reason)
    × (trim reason ≢ "")
    × (now ≤ deadline config approval)
    × (get_job w.db approval.job_id ≡ some job)
    × (plan_of_job job w ≡ some plan)
    × (recompute_plan_hash config plan ≡ plan.plan_hash)
    × IsReviewedAs config w.registry plan plan.target_type
    × (session_of_plan plan w ≡ some session)
    × StartsIn session.tmux_session_name w.launched after

module _ (config : Config) (now : ℕ) (actor : Actor) (body : Decision) (w : World) where
  Starts : ApprovalRow → Action World Reply → Type 0
  Starts approval m =
      (m w).1.launched ≢ w.launched
      → ApprovedStart config now actor body approval w (m w).1.launched

  decide_pending-Starts :
      (approval : ApprovalRow)
      → approval.requested_by ≡ actor.id
      → is_pending approval.status ≡ true
      → Starts approval (decide_pending config now actor approval body)
  unfolding decide_pending Starts IsInner
  decide_pending-Starts approval requester waiting =
      or_return-cases (Starts approval) _ body.approved _ (λ missing starts. absurd (starts refl))
        (λ is_approval decision.
          or_return-cases (Starts approval) _ body.reason _ (λ missing starts. absurd (starts refl))
            (λ reason given.
              if-cases (Starts approval) (trim reason == "") _ _
                (λ blank starts. absurd (starts refl))
                (λ filled.
                  if-cases (Starts approval) (is_approval && ltb (deadline config approval) now) _ _
                    (λ late starts. absurd (
                      starts (ap (λ o. o.0) (expire_approval-IsInner config now actor approval w))))
                    (λ timely starts.
                      elim (settle-StartsDecided config now actor w approval is_approval reason) [
                        | inl idle ↦ absurd (starts idle)
                        | inr (approved, job, found, plan, present, inl idle) ↦ absurd (starts idle)
                        | inr
                              (
                                approved,
                                job,
                                found,
                                plan,
                                present,
                                inr (hash, reviewed, session, owned, starts_in),
                              ) ↦
                            (
                              reason,
                              job,
                              plan,
                              session,
                              requester,
                              waiting,
                              decision ∙ ap some approved,
                              given,
                              ground (arith, eq_iff (trim reason) ""),
                              ground arith,
                              found,
                              present,
                              hash,
                              reviewed,
                              owned,
                              starts_in,
                            )
                      ]))))

-- If a decision about an approval starts a command, then the approval is there and was pending, its
-- deadline had not passed, and the decision is an approval, with a reason, by who asked for it; the
-- hash of the plan is that of its content, its runbook or agent is the one that was reviewed, and what
-- is started is one command in the session of the plan, which belongs to who asked for the plan.
pub decide_plan_approval-starts :
    (config : Config) (now : ℕ) (actor : Actor) (id : String) (body : Decision) (w : World)
    → (decide_plan_approval config now actor id body w).1.launched ≢ w.launched
    → (approval : ApprovalRow) × (get_approval w.db id ≡ some approval)
      × ApprovedStart config now actor body approval w
          (decide_plan_approval config now actor id body w).1.launched
unfolding decide_plan_approval Starts
decide_plan_approval-starts config now actor id body w =
    let Goal : Action World Reply → Type 0 = λ m.
      (m w).1.launched ≢ w.launched
      → (approval : ApprovalRow) × (get_approval w.db id ≡ some approval)
        × ApprovedStart config now actor body approval w (m w).1.launched in
    or_return-cases Goal _ (get_approval w.db id) _ (λ missing starts. absurd (starts refl))
      (λ approval found.
        if-cases Goal (approval.requested_by != actor.id) _ _
          (λ foreign starts. absurd (starts refl))
          (λ own.
            if-cases Goal (not (is_pending approval.status)) _ _
              (λ settled starts. absurd (starts refl))
              (λ waiting starts. (
                approval,
                found,
                decide_pending-Starts config now actor body w approval
                    (ground (arith, eq_iff approval.requested_by actor.id)) (ground arith) starts,
              ))))
