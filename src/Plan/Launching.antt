-- ===== src/Plan/Launching.antt =====
-- apps/api/src/app.ts, `createAgentPlan` and the normalization of a prompt.
use mathlib.Core.Option
use wireguard_ops_cockpit.Base.{
  ℕ, String, Bool, true, false, Option, none, some, List, [], ◌∷◌, ◌==◌, ◌!=◌, ◌||◌, ltb, leb,
  if◌then◌else◌, string_eq, nat_eq, length,
}
use wireguard_ops_cockpit.Base.Actions.{Action}
use wireguard_ops_cockpit.Base.Json.{Json, str, num, bool, end, fields}
use wireguard_ops_cockpit.Base.Text.{
  codes, joined, trim, slice_to, spaced, is_white, utf16_length, decimal,
}
use wireguard_ops_cockpit.Checkpoint.{Definition}
use wireguard_ops_cockpit.Plan.{Config, World}
use wireguard_ops_cockpit.Plan.Creating.{insert_plan}
use wireguard_ops_cockpit.Plan.Reviewing.{review, create_plan_hash, Payload}
use wireguard_ops_cockpit.Registry.{Agent, Supervision, session_observed, unsupervised}
use wireguard_ops_cockpit.Registry.Encoding.{
  str_or_null, integration_text, supervision_text, contract_json, compute_agent_manifest_digest,
}
use wireguard_ops_cockpit.Store.{PlanRow, PlanStatus, PlanTarget, RiskClass, Verdict}
use wireguard_ops_cockpit.Store.Accounts.{Actor}

pub record Prompt : Type 0 where
  pub prompt : String
  pub removed_control_chars : Bool
  pub truncated : Bool

abbrev pub default_prompt : String
default_prompt = "Inspect the current maintenance context and report back."

-- `value || fallback`
abbrev pub or_default : String → String
or_default s = if s == "" then default_prompt else s

abbrev is_control : ℕ → Bool
is_control c = leb c 31 || c == 127

unfoldable pub normalize_prompt : Option String → ℕ → Prompt
normalize_prompt value max_length =
    let base = trim (or_default (Option.get_or value "")) in
    let without = spaced is_control base in
    let compact = trim (spaced is_white without) in
    let normalized = slice_to max_length (or_default compact) in
    record {
      prompt = normalized;
      removed_control_chars = without != base;
      truncated = ltb (utf16_length (codes normalized)) (utf16_length (codes compact));
    }

abbrev pub is_observed : Supervision → Bool
is_observed session_observed = true
is_observed unsupervised = false

unfoldable pub create_checkpoint_contract_digest : (Json → String) → List Definition → Option String
create_checkpoint_contract_digest digest [] = none
create_checkpoint_contract_digest digest contract = some (digest (contract_json contract))

unfoldable pub create_agent_approval_reason : Agent → String
create_agent_approval_reason agent =
    if is_observed agent.supervision_mode
    then joined (
        agent.name
        ∷ " requires operator approval before it can present "
        ∷ decimal (length agent.checkpoint_template)
        ∷ " staged remediation checkpoints in the session."
        ∷ [])
    else if agent.privileged_helper_requested
    then joined (
        agent.name
        ∷ " requires explicit approval before launch because it may request a privileged helper."
        ∷ [])
    else joined (agent.name ∷ " requires explicit approval before launch." ∷ [])

module _ (config : Config) (now : ℕ) (actor : Actor) (agent : Agent) (session_id : String) where
  abbrev pub contract_digest : Option String
  contract_digest = create_checkpoint_contract_digest config.digest agent.checkpoint_template

  -- The fields that each of the reviews repeats.
  abbrev pub contract_fields : List (String × Json)
  contract_fields =
      ("checkpointContractDigest", str_or_null contract_digest)
      ∷ ("checkpointCount", num (length agent.checkpoint_template))
      ∷ []

  unfoldable pub agent_payload : Prompt → Payload
  agent_payload prompt = record {
    target_type = PlanTarget.agent;
    target_id = agent.id;
    session_id = some session_id;
    requested_by = actor.id;
    normalized_input = fields (
        ("sessionId", str session_id)
        ∷ ("prompt", str prompt.prompt)
        ∷ ("promptLength", num (utf16_length (codes prompt.prompt)))
        ∷ ("agentManifestDigest", str (compute_agent_manifest_digest config.digest agent))
        ∷ ("promptContractId", str agent.prompt_contract_id)
        ∷ ("checkpointContractId", str_or_null agent.checkpoint_contract_id)
        ∷ ("checkpointContractDigest", str_or_null contract_digest)
        ∷ ("checkpointContract", contract_json agent.checkpoint_template)
        ∷ ("supervisionMode", str (supervision_text agent.supervision_mode))
        ∷ ("executionAuthority", str "advisory-only")
        ∷ []);
    risk_class =
        if agent.requires_approval || agent.privileged_helper_requested
        then RiskClass.high
        else RiskClass.moderate;
  }

  unfoldable pub agent_plan : Prompt → String → PlanRow
  agent_plan prompt id =
      let payload = agent_payload prompt in
      let digest = compute_agent_manifest_digest config.digest agent in
      let hook = if agent.requires_approval then Verdict.not_run else Verdict.pending in
      record {
        id = id;
        session_id = payload.session_id;
        target_type = payload.target_type;
        target_id = payload.target_id;
        requested_by = payload.requested_by;
        status = if agent.requires_approval then PlanStatus.pending_approval else PlanStatus.ready;
        risk_class = payload.risk_class;
        requires_approval = agent.requires_approval;
        approval_id = none;
        executed_job_id = none;
        plan_hash = create_plan_hash config payload;
        plan_summary =
            if is_observed agent.supervision_mode
            then joined (
                agent.name
                ∷ " will launch in the current tmux session only after approval and will stop at "
                ∷ decimal (length agent.checkpoint_template)
                ∷ " explicit operator review checkpoints."
                ∷ [])
            else joined (
                agent.name
                ∷ " will launch only after planner and safety review, deterministic policy validation, and hook checks have passed."
                ∷ []);
        normalized_input = payload.normalized_input;
        planner_review =
            review (some "planner-agent") Verdict.passed
              (joined (
                "Planner agent reduced the agent request to a bounded launch contract for "
                ∷ agent.name ∷ "." ∷ []))
              (fields (
                ("integration", str (integration_text agent.integration))
                ∷ ("promptLength", num (utf16_length (codes prompt.prompt)))
                ∷ ("truncated", bool prompt.truncated)
                ∷ ("agentManifestDigest", str digest)
                ∷ ("promptContractId", str agent.prompt_contract_id)
                ∷ ("checkpointContractId", str_or_null agent.checkpoint_contract_id)
                ∷ contract_fields));
        safety_review =
            review (some "safety-agent")
              (if agent.requires_approval then Verdict.approval_required else Verdict.passed)
              (joined (
                if agent.requires_approval
                then (if is_observed agent.supervision_mode
                    then "Safety agent requires explicit operator approval before " ∷ agent.name
                      ∷ " can start presenting staged remediation checkpoints in the session." ∷ []
                    else "Safety agent requires explicit approval before " ∷ agent.name
                      ∷ " can request any privileged helper." ∷ [])
                else "Safety agent accepted the prompt because the launch path stays inside the bounded local agent launcher contract."
                  ∷ []))
              (fields (
                ("removedControlChars", bool prompt.removed_control_chars)
                ∷ ("truncated", bool prompt.truncated)
                ∷ ("requiresApproval", bool agent.requires_approval)
                ∷ ("supervisionMode", str (supervision_text agent.supervision_mode))
                ∷ ("executionAuthority", str "advisory-only")
                ∷ contract_fields));
        policy_review =
            review none Verdict.passed
              "Deterministic policy gate confirmed the agent manifest is allowlisted and no browser-supplied shell command crosses the boundary."
              (fields (
                ("agentId", str agent.id)
                ∷ ("targetType", str "agent")
                ∷ ("agentManifestDigest", str digest)
                ∷ ("promptContractId", str agent.prompt_contract_id)
                ∷ contract_fields));
        pre_execution_hook =
            review none Verdict.passed
              (if prompt.removed_control_chars || prompt.truncated
                then "Pre-exec hook normalized the agent prompt before dispatching the bounded launch request."
                else "Pre-exec hook accepted the agent prompt without modifications.")
              (fields (
                ("removedControlChars", bool prompt.removed_control_chars)
                ∷ ("truncated", bool prompt.truncated)
                ∷ ("sessionId", str session_id)
                ∷ ("agentManifestDigest", str digest)
                ∷ ("checkpointContractDigest", str_or_null contract_digest)
                ∷ []));
        runtime_hook =
            review none hook
              (if agent.requires_approval
                then "Runtime hook is waiting for approval before dispatch."
                else "Runtime hook is ready to observe the bounded local agent launch.")
              end;
        post_execution_hook =
            review none hook
              (if agent.requires_approval
                then "Post-exec verification will only run after approval."
                else "Post-exec verification will capture the launch result and keep the session auditable.")
              end;
        created_at = now;
        updated_at = now;
      }

  unfoldable pub create_agent_plan : Option String → ℕ → Action World PlanRow
  create_agent_plan prompt max_length =
      insert_plan config now (agent_plan (normalize_prompt prompt max_length))
