-- ===== src/Hermes.antt =====
-- apps/api/src/app.ts: the change jobs of Hermes, their output record and how it is rewritten. The
-- texts that only a reader sees (`neededToContinue`, `recommendedAction`) are left out.
mod Tests
pub mod Updating
pub mod Failures
pub mod Review
pub mod Deciding
pub mod Approval
pub mod Reactivating
pub mod Withdrawing
pub mod Conditions
pub mod Recovering
use mathlib.Core.Option
use wireguard_ops_cockpit.Base.{
  ℕ, String, Bool, true, false, Option, none, some, List, [], ◌∷◌, ◌==◌, ◌&&◌, ◌||◌, not,
  if◌then◌else◌, string_eq, option_eq, nat_eq, map,
}
use wireguard_ops_cockpit.Base.Options.{◌>>=◌}
use wireguard_ops_cockpit.Base.Json.{Json, Fields, field, end, str, arr, of_list}
use wireguard_ops_cockpit.Base.Text.{trim}
use wireguard_ops_cockpit.Envelope.{
  Envelope, EnvelopeError, signature_mismatch, expired, binding_mismatch, intent_drift, plan_drift,
  safety_drift, policy_drift, capability_drift, manifest_drift, approval_drift, gate_drift,
  evidence_drift, missing,
}
use wireguard_ops_cockpit.Envelope.Capability.{CapabilityId}
use wireguard_ops_cockpit.Store.{Db, JobRow, JobStatus, UserRole, admin, automation}
use wireguard_ops_cockpit.Store.Accounts.{Actor}
use wireguard_ops_cockpit.Store.Jobs.{status_code, get_job, get_job_for_actor, update_job, or_else}
use wireguard_ops_cockpit.Store.Audits.{NewAudit, create_audit}

-- The phases that an explanation carries, with that of a run that waits for its place on the host.
pub data HermesPhase : Type 0 where
  queued planning reviewing waiting_for_host executing verifying finished : HermesPhase

pub record HermesExplanation : Type 0 where
  pub phase : HermesPhase
  pub intent : String
  pub completed : List String
  pub reason : String
  pub evidence : List EnvelopeError
  pub rollback_available : Bool

pub record BreakerOverride : Type 0 where
  pub at_time : ℕ
  pub actor_id : String
  pub reason : String

pub record ChangeRequest : Type 0 where
  pub intent : String
  pub evidence : Json
  pub owned_session : Bool
  pub allowed_capabilities : List CapabilityId
  pub execute : Bool
  pub operation : Option String
  pub breaker_key : Option String
  pub breaker_override : Option BreakerOverride

-- `output.approval`
pub record Decision : Type 0 where
  pub approved : Bool
  pub reason : String
  pub actor_id : String

pub record ReactivationEntry : Type 0 where
  pub at_time : ℕ
  pub actor_id : String
  pub previous_expires_at : ℕ
  pub expires_at : ℕ

pub record Withdrawal : Type 0 where
  pub at_time : ℕ
  pub actor_id : String
  pub actor_name : String
  pub reason : String
  pub previous_status : JobStatus
  pub previous_phase : Option HermesPhase

-- `output.breaker`: its `approvalExpiresAt`, and the object.
pub record BreakerGate : Type 0 where
  pub approval_expires_at : Option ℕ
  pub details : Json

-- A job's `output`, by the fields that the handlers read; `none` for a field that is not there.
pub record Output : Type 0 where
  pub explanation : Option HermesExplanation
  pub request : Option ChangeRequest
  pub restarts : Option Json
  pub execution_started_at : Option ℕ
  pub host_run_queue : Option Json
  pub host_run_started_at : Option ℕ
  pub host_run_requested_at : Option ℕ
  pub plan : Option String
  pub safety : Option Json
  pub policy : Option Json
  pub rollback_available : Bool
  pub capabilities : Option (List CapabilityId)
  pub manifest : Option Json
  pub host_run : Option Json
  pub envelope : Option Envelope
  pub envelope_errors : Option (List EnvelopeError)
  pub proposal_path : Option String
  pub breaker : Option BreakerGate
  pub approval : Option Decision
  pub reorder : Option Json
  pub reactivations : Option (List ReactivationEntry)
  pub withdrawal : Option Withdrawal

-- `{}`
abbrev pub no_output : Output
no_output = record {
  explanation = none;
  request = none;
  restarts = none;
  execution_started_at = none;
  host_run_queue = none;
  host_run_started_at = none;
  host_run_requested_at = none;
  plan = none;
  safety = none;
  policy = none;
  rollback_available = false;
  capabilities = none;
  manifest = none;
  host_run = none;
  envelope = none;
  envelope_errors = none;
  proposal_path = none;
  breaker = none;
  approval = none;
  reorder = none;
  reactivations = none;
  withdrawal = none;
}

abbrev pub Job : Type 0
Job = JobRow Output

abbrev pub World : Type 0
World = Db Output

-- One reading of the clock, and the id of the audit row that the call may write.
pub record Call : Type 0 where
  pub now : ℕ
  pub audit_id : String

pub record Config : Type 0 where
  pub secret : String
  pub approval_ttl : ℕ
  pub runtime_fingerprint : String
  -- The first 16 digits of a text's SHA-256.
  pub short_hash : String → String
  -- Node's `path.resolve`, and the resolved directory of the proposals
  pub resolve : String → String
  pub proposal_root : String

pub record Reply : Type 0 where
  pub code : ℕ
  pub message : String
  pub job : Option Job
  -- whether the handler starts the job's run in the background
  pub starts_run : Bool

abbrev pub refused : ℕ → String → Reply
refused code message = record { code = code; message = message; job = none; starts_run = false }

abbrev pub has_status : Job → JobStatus → Bool
has_status job status = status_code job.status == status_code status

abbrev pub output_of : Job → Output
output_of job = Option.get_or job.output no_output

abbrev pub is_some : {A : Type 0} → Option A → Bool
is_some (some _) = true
is_some none = false

abbrev pub explained : HermesPhase → String → List String → String → HermesExplanation
explained phase intent completed reason = record {
  phase = phase;
  intent = intent;
  completed = completed;
  reason = reason;
  evidence = [];
  rollback_available = false;
}

-- `String(explanation.intent || …)`
abbrev pub intent_of : String → Output → String
intent_of fallback output = elim output.explanation [
  | none ↦ fallback
  | some e ↦ if e.intent == "" then fallback else e.intent
]

abbrev pub status_text : JobStatus → String
status_text JobStatus.pending = "pending"
status_text JobStatus.pending_approval = "pending_approval"
status_text JobStatus.running = "running"
status_text JobStatus.completed = "completed"
status_text JobStatus.blocked_user_approval = "blocked_user_approval"
status_text JobStatus.blocked_policy = "blocked_policy"
status_text JobStatus.blocked_prerequisite = "blocked_prerequisite"
status_text JobStatus.blocked_runner_busy = "blocked_runner_busy"
status_text JobStatus.failed_execution = "failed_execution"
status_text JobStatus.failed_verification = "failed_verification"
status_text JobStatus.rollback_completed = "rollback_completed"
status_text JobStatus.rejected = "rejected"
status_text JobStatus.withdrawn = "withdrawn"
status_text JobStatus.failed = "failed"
