-- ===== src/Hermes/Updating.antt =====
-- apps/api/src/app.ts: how a change job's output is rewritten, and what its failure leaves in the audit
-- log.
use wireguard_ops_cockpit.Base.{
  ℕ, String, Bool, Option, none, some, List, ◌==◌, ◌&&◌, ◌||◌, if◌then◌else◌, string_eq, option_eq,
  nat_eq, map,
}
use wireguard_ops_cockpit.Base.Json.{Fields, field, end, str, arr, of_list}
use wireguard_ops_cockpit.Base.Text.{trim}
use wireguard_ops_cockpit.Envelope.{
  EnvelopeError, signature_mismatch, expired, binding_mismatch, intent_drift, plan_drift,
  safety_drift, policy_drift, capability_drift, manifest_drift, approval_drift, gate_drift,
  evidence_drift, missing,
}
use wireguard_ops_cockpit.Store.{JobStatus, admin, automation}
use wireguard_ops_cockpit.Store.Accounts.{Actor}
use wireguard_ops_cockpit.Store.Jobs.{status_code, get_job, get_job_for_actor, update_job, or_else}
use wireguard_ops_cockpit.Store.Audits.{NewAudit, create_audit}
use wireguard_ops_cockpit.Hermes.{
  HermesExplanation, ChangeRequest, Output, Job, World, Call, Config, has_status, output_of,
  is_some, status_text,
}

unfoldable pub breaker_key_for : (String → String) → Option String → String → String
breaker_key_for short_hash operation intent = elim operation [
  | none ↦ Prim.Native.String.◌++◌ "intent:" (short_hash (trim intent))
  | some o ↦
      if o == ""
      then Prim.Native.String.◌++◌ "intent:" (short_hash (trim intent))
      else Prim.Native.String.◌++◌ "operation:" o
]

-- `request?.breakerKey ?? breakerKeyFor(request?.operation, String(request?.intent ?? intent))`
unfoldable pub key_of_request : (String → String) → Option ChangeRequest → String → String
unfolding breaker_key_for
key_of_request short_hash request intent = elim request [
  | none ↦ breaker_key_for short_hash none intent
  | some r ↦ elim r.breaker_key [
    | some key ↦ key
    | none ↦ breaker_key_for short_hash r.operation r.intent
  ]
]

-- `{ ...carried, ...extra, explanation: detail }`
unfoldable pub rewritten : Output → Output → HermesExplanation → Output
rewritten previous extra detail = record extra {
  request = or_else extra.request previous.request;
  restarts = or_else extra.restarts previous.restarts;
  execution_started_at = or_else extra.execution_started_at previous.execution_started_at;
  host_run_queue = or_else extra.host_run_queue previous.host_run_queue;
  explanation = some detail;
}

-- `["running", "pending"].includes(status) ? null : now`
abbrev pub ended_at : JobStatus → ℕ → Option ℕ
ended_at JobStatus.running now = none
ended_at JobStatus.pending now = none
ended_at _ now = some now

-- The condition of the audit `hermes.change.failed`.
unfoldable pub is_real_failure : JobStatus → Job → Bool
is_real_failure status job =
    (status_code status == 8 || status_code status == 9)
    && (job.subject_id == some "hermes-change" && is_some (output_of job).execution_started_at)

abbrev pub error_text : EnvelopeError → String
error_text signature_mismatch = "execution envelope signature mismatch"
error_text expired = "execution envelope expired"
error_text binding_mismatch = "execution envelope binding mismatch"
error_text intent_drift = "trusted intent drift"
error_text plan_drift = "reviewed plan drift"
error_text safety_drift = "safety review drift"
error_text policy_drift = "policy decision drift"
error_text capability_drift = "capability drift"
error_text manifest_drift = "capability manifest drift"
error_text approval_drift = "operator approval drift"
error_text gate_drift = "gate drift"
error_text evidence_drift = "evidence drift"
error_text missing = "execution envelope missing"

-- The details of the audits.
abbrev pub reason_details : String → Fields
reason_details reason = field "reason" (str reason) end

abbrev pub error_details : List EnvelopeError → Fields
error_details errors =
    field "envelopeErrors" (arr (of_list (map (λ e. str (error_text e)) errors))) end

module _ (call : Call) where
  -- An audit about a job.
  unfoldable pub audit_job : World → Actor → String → String → Fields → World
  unfolding create_audit
  audit_job db actor action id details = create_audit db call.audit_id call.now (record {
    actor_id = some actor.id;
    action = action;
    target_type = "job";
    target_id = some id;
    details = details;
  })

-- `actor.role === "admin" ? getJob(jobId) : getJobForActor(jobId, actor.id)`
unfoldable pub visible_job : World → Actor → String → Option Job
visible_job db actor id = elim actor.role [
  | admin ↦ get_job db id
  | automation ↦ get_job_for_actor db id actor.id
]

module _ (config : Config) (call : Call) where
  abbrev pub failure_of : JobStatus → HermesExplanation → Job → NewAudit
  failure_of status detail job = record {
    actor_id = none;
    action = "hermes.change.failed";
    target_type = "job";
    target_id = some job.id;
    details = field "status" (str (status_text status)) (
        field "reason" (str detail.reason) (
          field "runtimeFingerprint" (str config.runtime_fingerprint) (
            field "breakerKey"
              (str (key_of_request config.short_hash (output_of job).request detail.intent)) end)));
  }

  unfoldable pub audit_failure : World → JobStatus → HermesExplanation → Job → World
  audit_failure db status detail job =
      if is_real_failure status job
      then create_audit db call.audit_id call.now (failure_of status detail job)
      else db

  -- `none` is the error "job not found".
  unfoldable pub update_hermes_job :
      World → String → JobStatus → HermesExplanation → Output → Option (World × Job)
  update_hermes_job db id status detail extra = elim (get_job db id) [
    | none ↦ none
    | some stored ↦
        if has_status stored JobStatus.withdrawn
        then some (db, stored)
        else elim (update_job db id call.now (record {
          status = status;
          approval_id = none;
          output = some (rewritten (output_of stored) extra detail);
          completed_at = some (ended_at status call.now);
        })) [
          | none ↦ none
          | some (db', updated) ↦ some (audit_failure db' status detail updated, updated)
        ]
  ]

  unfoldable pub mark_execution_started : World → String → Option World
  mark_execution_started db id = elim (get_job db id) [
    | none ↦ some db
    | some job ↦
        if is_some (output_of job).execution_started_at
        then some db
        else elim (update_job db id call.now (record {
          status = job.status;
          approval_id = none;
          output = some (record (output_of job) { execution_started_at = some call.now });
          completed_at = none;
        })) [ none ↦ none | some (db', updated) ↦ some db' ]
  ]
