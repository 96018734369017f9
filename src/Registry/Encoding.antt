-- ===== src/Registry/Encoding.antt =====
-- apps/api/src/registries.ts: the JSON values of runbooks, scripts and agents that are hashed.
-- `digest` is the SHA-256 of a value's JSON text, which Node computes.
use wireguard_ops_cockpit.Base.{String, Option, none, some, List, map, filter_map}
use wireguard_ops_cockpit.Base.Json.{Json, Fields, field, end, str, arr, obj, bool, null, of_list}
use wireguard_ops_cockpit.Checkpoint.{Definition}
use wireguard_ops_cockpit.Checkpoint.Parsing.{kind_text}
use wireguard_ops_cockpit.Registry.{
  StepKind, WorkflowStep, Integration, placeholder, host_tmux, demo_local, control_plane,
  copilot_cli, opencode, Runbook, Script, Supervision, unsupervised, session_observed, Agent,
  Registry, find_script,
}

-- A field that is left out if it is `undefined`.
abbrev pub optional : String → Option String → Fields → Fields
optional name none fs = fs
optional name (some s) fs = field name (str s) fs

abbrev pub str_or_null : Option String → Json
str_or_null none = null
str_or_null (some s) = str s

abbrev step_kind_text : StepKind → String
step_kind_text StepKind.runbook = "runbook"
step_kind_text StepKind.agent = "agent"
step_kind_text StepKind.approval = "approval"
step_kind_text StepKind.verify = "verify"
step_kind_text StepKind.operator_checkpoint = "operator-checkpoint"

abbrev pub integration_text : Integration → String
integration_text placeholder = "placeholder"
integration_text host_tmux = "host-tmux"
integration_text demo_local = "demo-local"
integration_text control_plane = "control-plane"
integration_text copilot_cli = "copilot-cli"
integration_text opencode = "opencode"

abbrev pub supervision_text : Supervision → String
supervision_text unsupervised = "none"
supervision_text session_observed = "session-observed"

unfoldable pub step_json : WorkflowStep → Json
step_json s = obj (
    field "id" (str s.id) (
      field "label" (str s.label) (
        field "description" (str s.description) (
          field "kind" (str (step_kind_text s.kind)) (
            optional "runbookId" s.runbook_id
              (optional "agentId" s.agent_id (optional "approvalHint" s.approval_hint end)))))))

unfoldable pub runbook_json : Runbook → Json
unfolding step_json
runbook_json r = obj (
    field "id" (str r.id) (
      field "name" (str r.name) (
        field "summary" (str r.summary) (
          field "requiresSession" (bool r.requires_session) (
            field "requiresApproval" (bool r.requires_approval) (
              field "integration" (str (integration_text r.integration)) (
                field "privilegedHelperRequested" (bool r.privileged_helper_requested) (
                  field "reviewStatus" (str "allowlisted") (
                    field "scriptIds" (arr (of_list (map str r.script_ids))) (
                      field "workflowSteps" (arr (of_list (map step_json r.workflow_steps)))
                        end))))))))))

unfoldable pub script_json : Script → Json
script_json s = obj (
    field "id" (str s.id) (
      field "name" (str s.name) (
        field "summary" (str s.summary) (
          field "integration" (str "host-tmux") (
            field "privilegedHelperRequested" (bool s.privileged_helper_requested) (
              field "reviewStatus" (str "allowlisted")
                (field "sourcePath" (str s.source_path) end)))))))

abbrev definition_json : Definition → Json
definition_json d = obj (
    field "id" (str d.id) (
      field "label" (str d.label) (
        field "description" (str d.description)
          (field "kind" (str (kind_text d.kind)) (optional "runbookId" d.runbook_id end)))))

unfoldable pub contract_json : List Definition → Json
contract_json ds = arr (of_list (map definition_json ds))

unfoldable pub agent_json : Agent → Json
unfolding contract_json
agent_json a = obj (
    field "id" (str a.id) (
      field "name" (str a.name) (
        field "description" (str a.description) (
          field "requiresApproval" (bool a.requires_approval) (
            field "privilegedHelperRequested" (bool a.privileged_helper_requested) (
              field "integration" (str (integration_text a.integration)) (
                field "supervisionMode" (str (supervision_text a.supervision_mode)) (
                  field "executionAuthority" (str "advisory-only") (
                    field "promptContractId" (str a.prompt_contract_id) (
                      field "checkpointContractId" (str_or_null a.checkpoint_contract_id) (
                        field "checkpointTemplate" (contract_json a.checkpoint_template)
                          end)))))))))))

module _ (digest : Json → String) where
  unfoldable pub compute_runbook_version_hash : Registry → Runbook → String
  unfolding runbook_json script_json find_script
  compute_runbook_version_hash reg r = digest (
      obj (
        field "runbook" (runbook_json r) (
          field "scripts"
            (arr (of_list (map script_json (filter_map (find_script reg) r.script_ids)))) end)))

  unfoldable pub compute_agent_manifest_digest : Agent → String
  unfolding agent_json
  compute_agent_manifest_digest a = digest (agent_json a)
