-- ===== src/Plan/Creating.antt =====
-- apps/api/src/app.ts, `createRunbookPlan`. The safety review of a runbook, which
-- an agent outside gives, is an argument.
use mathlib.Core.Option
use wireguard_ops_cockpit.Base.{
  ℕ, String, Bool, true, false, Option, none, some, List, [], ◌∷◌, ◌==◌, if◌then◌else◌, string_eq,
  nat_eq,
}
use wireguard_ops_cockpit.Base.Actions.{Action, pure, ◌>>=◌, ◌>>◌}
use wireguard_ops_cockpit.Base.Json.{Json, Fields, str, num, bool, end, null, lookup, fields}
use wireguard_ops_cockpit.Base.Text.{joined}
use wireguard_ops_cockpit.Plan.{Config, World, audit, new_id, store}
use wireguard_ops_cockpit.Plan.Reviewing.{
  review, create_plan_hash, resolve_runbook_plan_state, is_high_risk_runbook, verdict_text,
  target_text, Payload,
}
use wireguard_ops_cockpit.Registry.{Runbook}
use wireguard_ops_cockpit.Registry.Encoding.{
  str_or_null, integration_text, compute_runbook_version_hash,
}
use wireguard_ops_cockpit.Store.{
  PlanRow, PlanStatus, PlanTarget, RiskClass, Review, Verdict, SessionRow,
}
use wireguard_ops_cockpit.Store.Accounts.{Actor}
use wireguard_ops_cockpit.Store.Audits.{NewAudit}
use wireguard_ops_cockpit.Store.Plans.{create_execution_plan}

pub data Trigger : Type 0 where
  manual scheduled : Trigger

abbrev pub trigger_text : Trigger → String
trigger_text manual = "manual"
trigger_text scheduled = "scheduled"

pub record PlanOptions : Type 0 where
  pub trigger : Trigger
  pub auto_dispatch : Bool
  pub schedule_id : Option String

abbrev pub default_options : PlanOptions
default_options = record { trigger = manual; auto_dispatch = true; schedule_id = none }

abbrev pub session_id_of : Option SessionRow → Option String
session_id_of = Option.map (λ (s : SessionRow). s.id)

-- The input of a runbook's plan.
unfoldable pub runbook_input : Runbook → String → Option SessionRow → PlanOptions → Fields
runbook_input runbook version session options = fields (
    ("runbookId", str runbook.id)
    ∷ ("runbookVersionHash", str version)
    ∷ ("sessionId", str_or_null (session_id_of session))
    ∷ ("sessionName", str_or_null (Option.map (λ (s : SessionRow). s.name) session))
    ∷ ("trigger", str (trigger_text options.trigger))
    ∷ ("scheduleId", str_or_null options.schedule_id)
    ∷ [])

abbrev pub is_blocked : PlanStatus → Bool
is_blocked PlanStatus.blocked = true
is_blocked _ = false

abbrev pub is_scheduled : Trigger → Bool
is_scheduled scheduled = true
is_scheduled manual = false

-- What the hooks after the launch are waiting for.
abbrev pub hook_verdict : Bool → Bool → Bool → Verdict
hook_verdict blocked requires dispatches =
    if blocked
    then Verdict.not_run
    else if requires
    then Verdict.not_run
    else if dispatches
    then Verdict.pending
    else Verdict.not_run

abbrev pub choose : {A : Type 0} → Bool → Bool → Bool → A → A → A → A → A
choose blocked requires dispatches a b c d =
    if blocked then a else if requires then b else if dispatches then c else d

abbrev pub created_audit : Actor → PlanRow → List (String × Json) → NewAudit
created_audit actor plan details = record {
  actor_id = some actor.id;
  action = "execution.plan.created";
  target_type = "execution-plan";
  target_id = some plan.id;
  details = fields (
      ("targetType", str (target_text plan.target_type))
      ∷ ("targetId", str plan.target_id)
      ∷ details);
}

-- `value || null`
abbrev pub or_null : Option Json → Json
or_null (some (str s)) = if s == "" then null else str s
or_null (some (num n)) = if n == 0 then null else num n
or_null (some (bool b)) = if b then bool true else null
or_null (some v) = v
or_null none = null

module _ (config : Config) (now : ℕ) where
  unfoldable pub insert_plan : (String → PlanRow) → Action World PlanRow
  insert_plan row = do
    id ← new_id config now
    store (λ db. (create_execution_plan db (row id), row id))

  unfoldable pub runbook_payload :
      Actor → Runbook → String → Option SessionRow → PlanOptions → Payload
  runbook_payload actor runbook version session options = record {
    target_type = PlanTarget.runbook;
    target_id = runbook.id;
    session_id = session_id_of session;
    requested_by = actor.id;
    normalized_input = runbook_input runbook version session options;
    risk_class = if is_high_risk_runbook runbook then RiskClass.high else RiskClass.low;
  }

  unfoldable pub runbook_plan :
      Actor → Runbook → String → Option SessionRow → PlanOptions → Review → String → PlanRow
  runbook_plan actor runbook version session options safety id =
      let payload = runbook_payload actor runbook version session options in
      let state = resolve_runbook_plan_state runbook safety.verdict in
      let blocked = is_blocked state.0 in
      let hook = hook_verdict blocked state.1 options.auto_dispatch in
      record {
        id = id;
        session_id = payload.session_id;
        target_type = payload.target_type;
        target_id = payload.target_id;
        requested_by = payload.requested_by;
        status = state.0;
        risk_class = payload.risk_class;
        requires_approval = state.1;
        approval_id = none;
        executed_job_id = none;
        plan_hash = create_plan_hash config payload;
        plan_summary = joined (
            runbook.name
            ∷ (if blocked
                then " was blocked by the safety review before the bounded executor could continue."
                else if is_scheduled options.trigger
                then " was generated by a weekly schedule and will still pass planner, safety review, policy validation, and hooks before any bounded execution continues."
                else " will run through planner, safety review, policy validation, and hooks before the bounded executor can continue.")
            ∷ []);
        normalized_input = payload.normalized_input;
        planner_review =
            review (some "planner-agent") Verdict.passed
              (joined (
                "Planner agent normalized " ∷ runbook.name ∷ " into a bounded runbook request."
                ∷ []))
              (fields (
                ("integration", str (integration_text runbook.integration))
                ∷ ("privilegedHelperRequested", bool runbook.privileged_helper_requested)
                ∷ ("sessionLinked", bool (elim session [ none ↦ false | some s ↦ true ]))
                ∷ ("runbookVersionHash", str version)
                ∷ []));
        safety_review = safety;
        policy_review =
            review none Verdict.passed
              "Deterministic policy gate confirmed the runbook is allowlisted and the request stayed within the manifest contract."
              (fields (
                ("runbookId", str runbook.id)
                ∷ ("targetType", str "runbook")
                ∷ ("runbookVersionHash", str version)
                ∷ []));
        pre_execution_hook =
            review none (if blocked then Verdict.blocked else Verdict.passed)
              (if blocked
                then "Pre-exec hook kept the runbook blocked because the safety review did not approve bounded dispatch."
                else elim session [
                  | some s ↦
                      "Pre-exec hook bound the runbook request to the selected cockpit session."
                  | none ↦
                      "Pre-exec hook accepted the runbook request without a linked tmux session."
                ])
              (fields (
                ("sessionId", str_or_null payload.session_id)
                ∷ ("runbookVersionHash", str version)
                ∷ []));
        runtime_hook =
            review none hook
              (choose blocked state.1 options.auto_dispatch
                "Runtime hook did not arm because the safety review blocked dispatch."
                "Runtime hook is waiting for approval before dispatch."
                "Runtime hook is armed for bounded placeholder dispatch."
                "Runtime hook is waiting for an operator or schedule policy to dispatch the bounded executor.")
              end;
        post_execution_hook =
            review none hook
              (choose blocked state.1 options.auto_dispatch
                "Post-exec verification is skipped because the safety review blocked bounded execution."
                "Post-exec verification will run only after approval and dispatch."
                "Post-exec verification will confirm the placeholder output and audit trail."
                "Post-exec verification will start only after a later bounded dispatch occurs.")
              end;
        created_at = now;
        updated_at = now;
      }

  unfoldable pub create_runbook_plan :
      Actor → Runbook → Option SessionRow → PlanOptions → Review → Action World PlanRow
  create_runbook_plan actor runbook session options safety w =
      let version = compute_runbook_version_hash config.digest w.registry runbook in
      (do
        plan ← insert_plan (runbook_plan actor runbook version session options safety)
        audit config now (record {
          actor_id = some actor.id;
          action = "execution.plan.safety_reviewed";
          target_type = "execution-plan";
          target_id = some plan.id;
          details = fields (
              ("runbookId", str runbook.id)
              ∷ ("runbookVersionHash", str version)
              ∷ ("verdict", str (verdict_text plan.safety_review.verdict))
              ∷ ("source", or_null (lookup "source" plan.safety_review.details))
              ∷ ("parseStatus", or_null (lookup "parseStatus" plan.safety_review.details))
              ∷ []);
        })
        pure plan)
        w
