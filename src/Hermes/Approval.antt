-- ===== src/Hermes/Approval.antt =====
-- apps/api/src/app.ts: the operator's decision about a change job, POST /api/hermes/jobs/:id/approval.
-- The handler waits once, for the proposal's file: `decide` is the part before, `start_approved` the
-- part after, and other requests may be served between them.
pub mod Laws
mod Tests
use wireguard_ops_cockpit.Base.{
  String, Bool, true, false, Option, none, some, List, [], ◌∷◌, ◌&&◌, not, any, if◌then◌else◌,
  string_eq, option_eq,
}
use wireguard_ops_cockpit.Base.Options.{◌>>=◌}
use wireguard_ops_cockpit.Envelope.{Envelope, Crypto, EnvelopeError, approve}
use wireguard_ops_cockpit.Hermes.{
  Output, HermesExplanation, World, Job, Call, Config, Reply, refused, executing, finished,
  has_status, output_of, intent_of, explained,
}
use wireguard_ops_cockpit.Hermes.Updating.{
  reason_details, error_details, visible_job, audit_job, update_hermes_job,
}
use wireguard_ops_cockpit.Hermes.Review.{envelope_errors_for}
use wireguard_ops_cockpit.Store.{JobStatus}
use wireguard_ops_cockpit.Store.Accounts.{Actor}
use wireguard_ops_cockpit.Store.Jobs.{get_job_owner_id}
use wireguard_ops_cockpit.Hermes.Deciding.{
  Pending, Step, reply_with, decision_by, given_reason, runtime_session, is_change, has_runtime,
  is_automation, is_nil, is_expired, is_protected, override_gate, waits, result_of, with_rollback,
  answered, awaits_proposal, decide_breaker_override,
}

-- The explanation and the output of a job whose run starts: the output is that of the job as it was
-- before the wait.
abbrev pub start_explanation : Pending → HermesExplanation
start_explanation pending = with_rollback (output_of pending.job) (
    explained executing pending.intent
      ("Planner proposal" ∷ "Safety review" ∷ "Policy evaluation" ∷ "Operator approval" ∷ [])
      "Operator approval recorded; the reviewed proposal is executing with the service account's bounded permissions.")

abbrev pub start_output : Pending → Envelope → Output
start_output pending envelope =
    decision_by pending.actor true pending.reason
      (record (output_of pending.job) { envelope = some envelope })

module _ (crypto : Crypto) (config : Config) (call : Call) where
  -- The stored envelope is expired, or no longer the reviewed one.
  unfoldable pub refuse_envelope :
      World → Job → Actor → String → List EnvelopeError → Option (World × Step)
  unfolding audit_job
  refuse_envelope db job actor intent errors = do
    (db1, blocked) ←
        update_hermes_job config call db job.id JobStatus.blocked_policy
          (record (explained finished intent []
            "The approved execution envelope is expired or no longer matches the reviewed action.") {
              evidence = errors;
            })
          (record (output_of job) { envelope_errors = some errors })
    some (
      audit_job call db1 actor "hermes.change.approval_invalid" job.id (error_details errors),
      answered (
          reply_with 409
            (if any is_expired errors
              then "execution envelope expired"
              else "execution envelope validation failed")
            blocked false),
    )

  unfoldable pub reject_reviewed : World → Job → Actor → String → String → Option (World × Step)
  unfolding audit_job
  reject_reviewed db job actor reason intent = do
    (db1, rejected) ←
        update_hermes_job config call
          (audit_job call db actor "hermes.change.rejected" job.id (reason_details reason)) job.id
          JobStatus.rejected
          (with_rollback (output_of job) (
            explained finished intent
              ("Planner proposal" ∷ "Safety review" ∷ "Policy evaluation" ∷ "Operator decision"
                ∷ [])
              reason))
          (decision_by actor false reason (output_of job))
    some (db1, answered (reply_with 200 "" rejected false))

  -- The approval of a valid envelope, up to the reading of the proposal's file.
  unfoldable pub accept_reviewed :
      World → Bool → Job → String → Actor → String → String → Option (World × Step)
  unfolding audit_job
  accept_reviewed db planner job owner actor reason intent =
      let db1 = audit_job call db actor "hermes.change.approved" job.id (reason_details reason) in
      if not (is_protected config (output_of job).proposal_path)
      then some (
        db1,
        answered (refused 409 "stored proposal path is outside the protected proposal directory"),
      )
      else if has_runtime (runtime_session db1 job owner) planner
      then some (
        db1,
        awaits_proposal (record { job = job; actor = actor; reason = reason; intent = intent }),
      )
      else (do
        (db2, blocked) ←
            update_hermes_job config call db1 job.id JobStatus.blocked_prerequisite
              (explained finished intent []
                "Approval was recorded, but the executor runtime is unavailable.")
              (decision_by actor true reason (output_of job))
        some (db2, answered (reply_with 200 "" blocked false)))

  unfoldable pub decide_reviewed :
      World → Bool → Job → String → Actor → Bool → String → String → Option (World × Step)
  decide_reviewed db planner job owner actor approved reason intent =
      if not approved then reject_reviewed db job actor reason intent else (do
        errors ←
            envelope_errors_for crypto config.secret call.now job (output_of job).envelope owner
              intent true
        if is_nil errors
            then accept_reviewed db planner job owner actor reason intent
            else refuse_envelope db job actor intent errors)

  -- The handler up to the reading of the file. `decision` is `none` for a body that names neither
  -- decision, `planner` whether the planner's agent is registered.
  unfoldable pub decide :
      World → Bool → Actor → String → Option Bool → Option String → Option (World × Step)
  decide db planner actor id decision text =
      if is_automation actor
      then some
          (db, answered (refused 403 "only the operator's session decides about a change job"))
      else elim (visible_job db actor id) [
        | none ↦ some (db, answered (refused 404 "job not found"))
        | some job ↦ elim (get_job_owner_id db id) [
          | none ↦ some (db, answered (refused 409 "job owner is unavailable"))
          | some owner ↦
              if not (is_change job.subject_id && has_status job JobStatus.blocked_user_approval)
              then some (db, answered (refused 409 "job is not awaiting operator approval"))
              else elim decision [
                | none ↦ some (db, answered (refused 400 "decision must be approved or rejected"))
                | some approved ↦ elim (given_reason text) [
                  | none ↦
                      some (db, answered (refused 400 "a reason is required for every decision"))
                  | some reason ↦
                      let intent = intent_of "Approved Hermes change" (output_of job) in
                      elim (override_gate (output_of job)) [
                        | some gate ↦ (do
                          (db1, reply) ←
                              decide_breaker_override config call db job owner actor approved reason
                                intent gate
                          some (db1, answered reply))
                        | none ↦ decide_reviewed db planner job owner actor approved reason intent
                      ]
                ]
              ]
        ]
      ]

  -- The part after the file was read.
  unfoldable pub start_approved : World → Pending → Bool → Option (World × Reply)
  start_approved db pending readable =
      let output = output_of pending.job in
      if not readable
      then some (db, refused 409 "stored proposal is no longer available")
      else if not (waits db pending.job.id)
      then some (db, refused 409 "job is not awaiting operator approval")
      else (do
        envelope ← output.envelope
        approved_envelope ←
            result_of (approve crypto envelope config.secret config.approval_ttl call.now)
        (db1, running) ←
            update_hermes_job config call db pending.job.id JobStatus.running
              (start_explanation pending) (start_output pending approved_envelope)
        some (
          db1,
          reply_with 202 "Approval recorded; execution started. Poll the job endpoint." running
              true,
        ))
