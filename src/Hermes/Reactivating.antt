-- ===== src/Hermes/Reactivating.antt =====
-- apps/api/src/app.ts: a new deadline for a job whose envelope expired,
-- POST /api/hermes/jobs/:id/reactivate.
pub mod Laws
use wireguard_ops_cockpit.Base.{
  ℕ, ◌+◌, ◌*◌, String, Bool, true, false, Option, none, some, List, [], ◌∷◌, ◌++◌, ◌==◌, ◌&&◌, ◌||◌,
  not, leb, if◌then◌else◌, string_eq, option_eq, length,
}
use wireguard_ops_cockpit.Base.Options.{◌>>=◌}
use wireguard_ops_cockpit.Envelope.{Crypto, Envelope, EnvelopeError, ok, throws, renew, truthy}
use wireguard_ops_cockpit.Hermes.{
  World, Job, Call, Config, Output, Reply, refused, ReactivationEntry, has_status, output_of,
  intent_of, is_some,
}
use wireguard_ops_cockpit.Hermes.Updating.{error_details, visible_job, audit_job}
use wireguard_ops_cockpit.Base.Json.{Fields, field, end, num}
use wireguard_ops_cockpit.Hermes.Deciding.{is_change, is_nil, reply_with, result_of}
use wireguard_ops_cockpit.Hermes.Review.{envelope_errors_for}
use wireguard_ops_cockpit.Store.{JobStatus}
use wireguard_ops_cockpit.Store.Accounts.{Actor}
use wireguard_ops_cockpit.Store.Jobs.{JobPatch, update_job, get_job_owner_id}

abbrev pub reactivation_max_count : ℕ
reactivation_max_count = 3

abbrev pub reactivation_max_age_hours : ℕ
reactivation_max_age_hours = 72

-- `Array.isArray(reactivations) ? reactivations : []`
abbrev pub history_of : Output → List ReactivationEntry
history_of output = elim output.reactivations [ some entries ↦ entries | none ↦ [] ]

abbrev pub not_after_of : Job → ℕ
not_after_of job = job.created_at + reactivation_max_age_hours * 3600000

-- The job awaits the operator, who has not decided, and nobody ordered it again.
unfoldable pub is_reactivable : Job → Bool
is_reactivable job =
    is_change job.subject_id
    && (has_status job JobStatus.blocked_user_approval
        && (not (is_some (output_of job).approval) && not (is_some (output_of job).reorder)))

abbrev pub reactivation_entry : ℕ → Actor → Envelope → Envelope → ReactivationEntry
reactivation_entry now actor envelope renewed = record {
  at_time = now;
  actor_id = actor.id;
  previous_expires_at = envelope.unsigned.expires_at;
  expires_at = renewed.unsigned.expires_at;
}

-- The renewed envelope and the history are stored, nothing else changes.
abbrev pub reactivation_patch : ℕ → Job → Actor → Envelope → Envelope → JobPatch Output
reactivation_patch now job actor envelope renewed = record {
  status = JobStatus.blocked_user_approval;
  approval_id = none;
  output = some (record (output_of job) {
    envelope = some renewed;
    reactivations =
        some (history_of (output_of job) ++ reactivation_entry now actor envelope renewed ∷ []);
  });
  completed_at = none;
}

abbrev pub reactivation_details : Job → Envelope → Envelope → Fields
reactivation_details job envelope renewed =
    field "count" (num (length (history_of (output_of job)) + 1)) (
      field "maxCount" (num reactivation_max_count) (
        field "previousExpiresAt" (num envelope.unsigned.expires_at) (
          field "expiresAt" (num renewed.unsigned.expires_at)
            (field "notAfter" (num (not_after_of job)) end))))

module _ (crypto : Crypto) (config : Config) (call : Call) where
  unfoldable pub store_renewed : World → Job → Actor → Envelope → Option (World × Reply)
  store_renewed db job actor envelope = do
    renewed ←
        result_of
          (renew crypto envelope config.secret config.approval_ttl (not_after_of job) call.now)
    (db1, updated) ←
        update_job db job.id call.now (reactivation_patch call.now job actor envelope renewed)
    some (
      audit_job call db1 actor "hermes.change.reactivated" job.id
          (reactivation_details job envelope renewed),
      reply_with 200 "" updated false,
    )

  -- The checks of the stored envelope, and the step.
  unfoldable pub reactivate_envelope :
      World → Job → String → Actor → Envelope → Option (World × Reply)
  reactivate_envelope db job owner actor envelope =
      if truthy envelope.unsigned.operator_approved
      then some (db, refused 409 "an approved envelope is never reactivated")
      else if leb call.now envelope.unsigned.expires_at
      then some (db, refused 409 "the execution envelope is still valid; nothing to reactivate")
      else if leb reactivation_max_count (length (history_of (output_of job)))
          || leb (not_after_of job) call.now
      then some (db, refused 409 "reactivation limit reached; submit a new change job")
      else (do
        errors ←
            envelope_errors_for crypto config.secret call.now job (some envelope) owner
              (intent_of "Approved Hermes change" (output_of job)) false
        if is_nil errors
            then store_renewed db job actor envelope
            else some (
              audit_job call db actor "hermes.change.reactivate_refused" job.id
                  (error_details errors),
              refused 409
                  "the stored envelope no longer matches the reviewed job; submit a new change job",
            ))

  unfoldable pub reactivate : World → Actor → String → Option (World × Reply)
  reactivate db actor id = elim (visible_job db actor id) [
    | none ↦ some (db, refused 404 "job not found")
    | some job ↦ elim (get_job_owner_id db id) [
      | none ↦ some (db, refused 409 "job owner is unavailable")
      | some owner ↦
          if not (is_reactivable job)
          then some (
            db,
            refused 409
                "only an expired job that still awaits operator approval can be reactivated",
          )
          else elim (output_of job).envelope [
            | none ↦ some (db, refused 409 "job has no execution envelope to reactivate")
            | some envelope ↦ reactivate_envelope db job owner actor envelope
          ]
    ]
  ]
