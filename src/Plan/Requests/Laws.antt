-- ===== src/Plan/Requests/Laws.antt =====
-- apps/api/src/app.ts: a request starts a runbook at once only if nobody has to approve it.
use mathlib.Core.Path.{subst}
use text.Mathlib.TextEquality.{eq_iff}
use wireguard_ops_cockpit.Base.{
  ℕ, ◌≡◌, ◌≢◌, refl, sym, ap, ◌∙◌, String, false, Option, some, [], ◌∷◌, if-cases, arith, ◌⊎◌, inl,
  inr, find-holds, ◌==◌, ◌&&◌, string_eq, option_eq, option_beq_iff,
}
use wireguard_ops_cockpit.Base.Actions.{Action, pure, or_return-cases}
use wireguard_ops_cockpit.Base.Json.{str}
use wireguard_ops_cockpit.Plan.{Config, World, Job, Reply, audit, input_text}
use wireguard_ops_cockpit.Plan.Creating.{
  create_runbook_plan, runbook_plan, runbook_payload, insert_plan, is_blocked, default_options,
  created_audit,
}
use wireguard_ops_cockpit.Plan.Dispatching.{
  DispatchesIn, StartsIn, execute_runbook_plan-DispatchesIn,
}
use wireguard_ops_cockpit.Plan.Executing.{execute_runbook_plan, session_of_plan}
use wireguard_ops_cockpit.Plan.Inner.{pure-IsInner, after-IsInner}
use wireguard_ops_cockpit.Plan.Quiet.{
  IsQuiet, pure-IsQuiet, bind-IsQuiet, IsInner-IsQuiet, create_pending_approval_for_plan-IsQuiet,
  create_blocked_plan_record-IsInner, resolve_runbook_plan_state-lem,
}
use wireguard_ops_cockpit.Plan.Reviewing.{risk_text}
use wireguard_ops_cockpit.Plan.Requests.{
  given, created, answer_blocked, answer_pending, answer_executed, answer_runbook_plan,
  plan_and_answer, execute_runbook,
}
use wireguard_ops_cockpit.Registry.{Runbook, find_runbook}
use wireguard_ops_cockpit.Registry.Encoding.{compute_runbook_version_hash, str_or_null}
use wireguard_ops_cockpit.Store.{Db, PlanRow, SessionRow, Review, Verdict}
use wireguard_ops_cockpit.Store.Accounts.{Actor}
use wireguard_ops_cockpit.Store.Audits.{create_audit}
use wireguard_ops_cockpit.Store.Plans.{create_execution_plan}
use wireguard_ops_cockpit.Store.Sessions.{get_session_for_actor}

module _ (config : Config) (now : ℕ) (actor : Actor) where
  answer_blocked-IsQuiet :
      (runbook : Runbook) (plan : PlanRow) → IsQuiet (answer_blocked config now actor runbook plan)
  unfolding answer_blocked
  answer_blocked-IsQuiet runbook plan =
      bind-IsQuiet _ _
        (IsInner-IsQuiet _ (create_blocked_plan_record-IsInner config now plan actor _))
        (λ job. pure-IsQuiet _)

  answer_pending-IsQuiet :
      (plan : PlanRow) (reason : String) → IsQuiet (answer_pending config now actor plan reason)
  unfolding answer_pending
  answer_pending-IsQuiet plan reason =
      bind-IsQuiet _ _ (create_pending_approval_for_plan-IsQuiet config now plan actor reason)
        (λ waiting. pure-IsQuiet _)

  answer_executed-launched :
      (execute : Action World (PlanRow × Job)) (w : World)
      → (answer_executed config now execute w).1.launched ≡ (execute w).1.launched
  unfolding answer_executed
  answer_executed-launched execute w =
      ap (λ o. o.0)
        (after-IsInner execute (λ executed. pure (created executed)) w
          (λ executed. pure-IsInner (created executed)))

  -- The answer to a plan starts a command only if the plan is neither blocked nor needs an approval.
  answer_runbook_plan-DispatchesIn :
      (runbook : Runbook) (plan : PlanRow) (w : World)
      → ((answer_runbook_plan config now actor runbook plan w).1.launched ≡ w.launched)
        ⊎ ((is_blocked plan.status ≡ false)
            × (plan.requires_approval ≡ false)
            × DispatchesIn plan w (answer_runbook_plan config now actor runbook plan w).1.launched)
  unfolding answer_runbook_plan IsQuiet
  answer_runbook_plan-DispatchesIn runbook plan w =
      let Goal : Action World Reply → Type 0 = λ m.
        ((m w).1.launched ≡ w.launched)
        ⊎ ((is_blocked plan.status ≡ false)
            × (plan.requires_approval ≡ false)
            × DispatchesIn plan w (m w).1.launched) in
      if-cases Goal (is_blocked plan.status) _ _
        (λ blocked. inl (answer_blocked-IsQuiet runbook plan w))
        (λ allowed.
          if-cases Goal plan.requires_approval _ _ (λ waits. inl (answer_pending-IsQuiet plan _ w))
            (λ free. inr (
              allowed,
              free,
              subst (DispatchesIn plan w)
                  (sym (
                    answer_executed-launched (execute_runbook_plan config now plan actor runbook)
                      w))
                  (execute_runbook_plan-DispatchesIn config now plan actor w runbook),
            )))

  -- A created plan starts a command only if the runbook needs no approval and its review has passed,
  -- in the session that it was created for.
  plan_and_answer-starts :
      (runbook : Runbook) (session : SessionRow) (safety : Review) (w : World)
      → get_session_for_actor w.db session.id actor.id ≡ some session
      → ((plan_and_answer config now actor runbook session safety w).1.launched ≡ w.launched)
        ⊎ ((runbook.requires_approval ≡ false)
            × (safety.verdict ≢ Verdict.blocked)
            × (safety.verdict ≢ Verdict.not_run)
            × (safety.verdict ≢ Verdict.approval_required)
            × StartsIn session.tmux_session_name w.launched
                (plan_and_answer config now actor runbook session safety w).1.launched)
  unfolding plan_and_answer create_runbook_plan insert_plan audit runbook_plan runbook_payload
      session_of_plan get_session_for_actor create_audit create_execution_plan
  plan_and_answer-starts runbook session safety w owned =
      let version = compute_runbook_version_hash config.digest w.registry runbook in
      let plan =
        runbook_plan config now actor runbook version (some session) default_options safety
          (config.uuid w.drawn) in
      let planned =
        (create_runbook_plan config now actor runbook (some session) default_options safety w).1 in
      let ready =
        (audit config now
          (created_audit actor plan (
            ("sessionId", str session.id)
            ∷ ("riskClass", str (risk_text plan.risk_class))
            ∷ ("runbookVersionHash", str_or_null (input_text "runbookVersionHash" plan))
            ∷ []))
          planned).1 in
      elim (answer_runbook_plan-DispatchesIn runbook plan ready) [
        | inl idle ↦ inl idle
        | inr (allowed, free, inl idle) ↦ inl idle
        | inr (allowed, free, inr (other, found, starts)) ↦
            let (none_needed, a, b, c) =
              resolve_runbook_plan_state-lem runbook safety.verdict allowed free in
            let same : other ≡ session = ground (arith, sym found ∙ owned) in
            inr (
              none_needed,
              a,
              b,
              c,
              subst
                  (λ (s : SessionRow).
                    StartsIn s.tmux_session_name w.launched
                      (plan_and_answer config now actor runbook session safety w).1.launched)
                  same starts,
            )
      ]

-- A session that is found has the id that was asked for.
pub get_session_for_actor-lem :
    {O : Type 0} (db : Db O) (id actor_id : String) (session : SessionRow)
    → get_session_for_actor db id actor_id ≡ some session
    → get_session_for_actor db session.id actor_id ≡ some session
unfolding get_session_for_actor
get_session_for_actor-lem db id actor_id session found =
    let holds =
      find-holds (λ (s : SessionRow). s.id == id && s.owner_id == some actor_id) db.sessions session
        found in
    let same : session.id ≡ id = ground (arith, eq_iff session.id id) in
    subst (λ k. get_session_for_actor db k actor_id ≡ some session) (sym same) found

-- A request that starts a runbook at once found the runbook and a session of the actor, the runbook
-- needs no approval and its safety review was neither refused, nor left out, nor escalated; and what
-- is started is one command in that session.
pub execute_runbook-starts :
    (config : Config) (now : ℕ) (actor : Actor) (id : String) (session_id : Option String)
    (safety : Review) (w : World)
    → (execute_runbook config now actor id session_id safety w).1.launched ≢ w.launched
    → (runbook : Runbook) × (session : SessionRow) × (find_runbook w.registry id ≡ some runbook)
      × (session_id ≡ some session.id)
      × (session.owner_id ≡ some actor.id)
      × (runbook.requires_approval ≡ false)
      × (safety.verdict ≢ Verdict.blocked)
      × (safety.verdict ≢ Verdict.not_run)
      × (safety.verdict ≢ Verdict.approval_required)
      × StartsIn session.tmux_session_name w.launched
          (execute_runbook config now actor id session_id safety w).1.launched
unfolding execute_runbook get_session_for_actor
execute_runbook-starts config now actor id session_id safety w =
    let Goal : Action World Reply → Type 0 = λ m.
      (m w).1.launched ≢ w.launched
      → (runbook : Runbook) × (session : SessionRow) × (find_runbook w.registry id ≡ some runbook)
        × (session_id ≡ some session.id)
        × (session.owner_id ≡ some actor.id)
        × (runbook.requires_approval ≡ false)
        × (safety.verdict ≢ Verdict.blocked)
        × (safety.verdict ≢ Verdict.not_run)
        × (safety.verdict ≢ Verdict.approval_required)
        × StartsIn session.tmux_session_name w.launched (m w).1.launched in
    or_return-cases Goal _ (find_runbook w.registry id) _ (λ missing starts. absurd (starts refl))
      (λ runbook registered.
        or_return-cases Goal _ (given session_id) _ (λ missing starts. absurd (starts refl))
          (λ text named.
            or_return-cases Goal _ (get_session_for_actor w.db text actor.id) _
              (λ missing starts. absurd (starts refl))
              (λ session found starts.
                let holds =
                  find-holds (λ (s : SessionRow). s.id == text && s.owner_id == some actor.id)
                    w.db.sessions session found in
                elim (plan_and_answer-starts config now actor runbook session safety w
                  (get_session_for_actor-lem w.db text actor.id session found)) [
                    | inl idle ↦ absurd (starts idle)
                    | inr (none_needed, a, b, c, starts_in) ↦ (
                      runbook,
                      session,
                      registered,
                      ground (arith, eq_iff session.id text),
                      ground (arith, option_beq_iff session.owner_id (some actor.id)),
                      none_needed,
                      a,
                      b,
                      c,
                      starts_in,
                    )
                  ])))
