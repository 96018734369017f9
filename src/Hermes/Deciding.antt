-- ===== src/Hermes/Deciding.antt =====
-- apps/api/src/app.ts: what the decisions about a change job share, and the emergency pass of a job that
-- the open circuit breaker holds.
use text.Mathlib.Text.{starts_with}
use wireguard_ops_cockpit.Base.{
  ℕ, String, Bool, true, false, Option, none, some, List, [], ◌∷◌, ◌&&◌, ◌==◌, not, leb,
  if◌then◌else◌, string_eq, option_eq,
}
use wireguard_ops_cockpit.Base.Options.{◌>>=◌}
use wireguard_ops_cockpit.Base.Json.{Fields, field, end, str, as_array}
use wireguard_ops_cockpit.Base.Text.{trim}
use wireguard_ops_cockpit.Envelope.{EnvelopeError, expired, Result, ok, throws}
use wireguard_ops_cockpit.Hermes.{
  World, Job, Call, Config, Output, HermesExplanation, Reply, refused, ChangeRequest, queued,
  finished, has_status, output_of, explained, is_some, no_output, BreakerGate,
}
use wireguard_ops_cockpit.Hermes.Updating.{audit_job, update_hermes_job}
use wireguard_ops_cockpit.Store.{JobStatus, SessionRow, admin, automation}
use wireguard_ops_cockpit.Store.Accounts.{Actor, get_user_by_id}
use wireguard_ops_cockpit.Store.Jobs.{get_job}
use wireguard_ops_cockpit.Store.Sessions.{get_session_for_actor, is_tmux}

-- What the handler still holds when the file has been read.
pub record Pending : Type 0 where
  pub job : Job
  pub actor : Actor
  pub reason : String
  pub intent : String

pub data Step : Type 0 where
  answered : Reply → Step
  awaits_proposal : Pending → Step

abbrev pub reply_with : ℕ → String → Job → Bool → Reply
reply_with code message job starts_run = record {
  code = code;
  message = message;
  job = some job;
  starts_run = starts_run;
}

abbrev pub decision_by : Actor → Bool → String → Output → Output
decision_by actor approved reason output = record output {
  approval = some (record { approved = approved; reason = reason; actor_id = actor.id });
}

-- The body's reason, trimmed: `none` for one that is no text or blank.
unfoldable pub given_reason : Option String → Option String
given_reason text = do reason ← text; if trim reason == "" then none else some (trim reason)

-- The session that the run needs: there, and with a tmux backend.
unfoldable pub runtime_session : World → Job → String → Option SessionRow
runtime_session db job owner = do id ← job.session_id; get_session_for_actor db id owner

abbrev pub is_change : Option String → Bool
is_change subject = subject == some "hermes-change"

abbrev pub has_runtime : Option SessionRow → Bool → Bool
has_runtime none planner = false
has_runtime (some s) planner = is_tmux s.tmux_backend && planner

-- `Date.now() <= Date.parse(breaker.approvalExpiresAt)`
abbrev pub in_override_window : ℕ → Option ℕ → Bool
in_override_window now none = false
in_override_window now (some at_most) = leb now at_most

-- The request that can be run again: its evidence is an array.
abbrev pub runnable_request : Option ChangeRequest → Option ChangeRequest
runnable_request none = none
runnable_request (some r) = if is_some (as_array (some r.evidence)) then some r else none

abbrev pub gate_details : String → BreakerGate → Fields
gate_details reason gate = field "reason" (str reason) (field "breaker" gate.details end)

abbrev pub is_automation : Actor → Bool
is_automation actor = elim actor.role [ automation ↦ true | admin ↦ false ]

abbrev pub is_nil : {A : Type 0} → List A → Bool
is_nil [] = true
is_nil (_ ∷ _) = false

abbrev pub is_expired : EnvelopeError → Bool
is_expired expired = true
is_expired _ = false

-- The stored path, resolved, is below the directory of the proposals.
unfoldable pub is_protected : Config → Option String → Bool
is_protected config none = false
is_protected config (some path) =
    starts_with (config.resolve path) (Prim.Native.String.◌++◌ config.proposal_root "/")

-- The request that runs again, if it, its owner and the session are there.
unfoldable pub rerun_of : World → Job → String → Option ChangeRequest
rerun_of db job owner = do
  request ← runnable_request (output_of job).request
  user ← get_user_by_id db owner
  session ← runtime_session db job owner
  some request

-- The job waits for the open breaker, and has no reviewed plan.
abbrev pub override_gate : Output → Option BreakerGate
override_gate output = if is_some output.envelope then none else output.breaker

-- Whether the job still awaits the operator.
unfoldable pub waits : World → String → Bool
waits db id = elim (get_job db id) [
  | none ↦ false
  | some job ↦ has_status job JobStatus.blocked_user_approval
]

abbrev pub result_of : {A : Type 0} → Result A → Option A
result_of (ok a) = some a
result_of (throws _) = none

-- `Boolean(policy?.rollbackAvailable)`, carried into the explanation.
abbrev pub with_rollback : Output → HermesExplanation → HermesExplanation
with_rollback output e = record e { rollback_available = output.rollback_available }

module _ (config : Config) (call : Call) where
  unfoldable pub decide_breaker_override :
      World → Job → String → Actor → Bool → String → String → BreakerGate → Option (World × Reply)
  unfolding audit_job
  decide_breaker_override db job owner actor approved reason intent gate =
      let output = output_of job in
      if not approved
      then (do
        let db1 =
            audit_job call db actor "hermes.change.breaker_override_rejected" job.id
              (gate_details reason gate)
        (db2, rejected) ←
            update_hermes_job config call db1 job.id JobStatus.rejected
              (explained finished intent ("Circuit breaker" ∷ "Operator decision" ∷ []) reason)
              (decision_by actor false reason output)
        some (db2, reply_with 200 "" rejected false))
      else if not (in_override_window call.now gate.approval_expires_at)
      then some (db, refused 409 "the breaker override window expired; submit the change job again")
      else elim (rerun_of db job owner) [
        | none ↦ some (
          db,
          refused 409
              "the job has no recorded request, owner or session to run again; submit it again",
        )
        | some request ↦
            if not (waits db job.id)
            then some (db, refused 409 "job is not awaiting operator approval")
            else (do
              let db1 =
                  audit_job call db actor "hermes.change.breaker_override" job.id
                    (gate_details reason gate)
              (db2, running) ←
                  update_hermes_job config call db1 job.id JobStatus.running
                    (explained queued intent ("Circuit breaker" ∷ "Operator override" ∷ [])
                      "The operator let this one job through the open circuit breaker; it is planned and reviewed as usual.")
                    (record no_output {
                      request = some (record request {
                        breaker_override =
                            some
                              (record { at_time = call.now; actor_id = actor.id; reason = reason });
                      });
                    })
              some (
                db2,
                reply_with 202
                    "Breaker override recorded; the job is planned and reviewed now. Poll the job endpoint."
                    running true,
              ))
      ]
