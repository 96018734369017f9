-- ===== src/Hermes/Withdrawing.antt =====
-- apps/api/src/app.ts: the orderer takes a job back, POST /api/hermes/jobs/:id/withdraw.
pub mod Laws
use wireguard_ops_cockpit.Base.{
  ℕ, String, Bool, true, false, Option, none, some, List, [], ◌∷◌, ◌==◌, ◌&&◌, ◌||◌, not,
  if◌then◌else◌, string_eq, option_eq,
}
use wireguard_ops_cockpit.Base.Options.{◌>>=◌}
use wireguard_ops_cockpit.Base.Json.{Json, Fields, field, end, str, null}
use wireguard_ops_cockpit.Base.Text.{slice_to}
use wireguard_ops_cockpit.Hermes.{
  World, Job, Call, Output, HermesPhase, queued, planning, reviewing, waiting_for_host, executing,
  verifying, finished, Reply, refused, has_status, output_of, intent_of, explained, is_some,
  status_text,
}
use wireguard_ops_cockpit.Hermes.Updating.{reason_details, audit_job}
use wireguard_ops_cockpit.Hermes.Deciding.{given_reason, is_automation, reply_with}
use wireguard_ops_cockpit.Store.{JobStatus}
use wireguard_ops_cockpit.Store.Accounts.{Actor}
use wireguard_ops_cockpit.Store.Jobs.{JobPatch, get_job, update_job, get_job_owner_id}

-- `WITHDRAWABLE_STATUSES`
abbrev pub is_withdrawable_status : JobStatus → Bool
is_withdrawable_status JobStatus.pending = true
is_withdrawable_status JobStatus.pending_approval = true
is_withdrawable_status JobStatus.blocked_user_approval = true
is_withdrawable_status JobStatus.blocked_policy = true
is_withdrawable_status JobStatus.blocked_prerequisite = true
is_withdrawable_status JobStatus.blocked_runner_busy = true
is_withdrawable_status _ = false

-- `REPLANNABLE_PHASES`
abbrev pub is_replannable : Option HermesPhase → Bool
is_replannable (some queued) = true
is_replannable (some planning) = true
is_replannable (some reviewing) = true
is_replannable (some waiting_for_host) = true
is_replannable _ = false

abbrev pub phase_of : Output → Option HermesPhase
phase_of output = elim output.explanation [ some e ↦ some e.phase | none ↦ none ]

abbrev pub completed_of : Output → List String
completed_of output = elim output.explanation [ some e ↦ e.completed | none ↦ [] ]

abbrev pub phase_text : Option HermesPhase → String
phase_text none = ""
phase_text (some queued) = "queued"
phase_text (some planning) = "planning"
phase_text (some reviewing) = "reviewing"
phase_text (some waiting_for_host) = "waiting_for_host"
phase_text (some executing) = "executing"
phase_text (some verifying) = "verifying"
phase_text (some finished) = "finished"

-- `phase || null`
abbrev pub phase_or_null : Option HermesPhase → Json
phase_or_null none = null
phase_or_null (some phase) = str (phase_text (some phase))

-- `typeof hostRunStartedAt === "string" || typeof hostRunRequestedAt === "string"`
abbrev pub started_on_host : Output → Bool
started_on_host output = is_some output.host_run_started_at || is_some output.host_run_requested_at

unfoldable pub is_withdrawable : Job → Bool
is_withdrawable job =
    let output = output_of job in
    not (is_some output.approval)
    && (not (started_on_host output)
        && (is_withdrawable_status job.status
            || (has_status job JobStatus.running && is_replannable (phase_of output))))

-- `["hermes-change", "hermes-research"].includes(job.subjectId ?? "")`
abbrev pub is_hermes : Option String → Bool
is_hermes subject = subject == some "hermes-change" || subject == some "hermes-research"

module _ (call : Call) where
  abbrev pub withdrawal_patch : Job → Actor → String → JobPatch Output
  withdrawal_patch job actor reason =
      let output = output_of job in
      record {
        status = JobStatus.withdrawn;
        approval_id = none;
        output = some (record output {
          withdrawal = some (record {
            at_time = call.now;
            actor_id = actor.id;
            actor_name = actor.username;
            reason = reason;
            previous_status = job.status;
            previous_phase = phase_of output;
          });
          explanation = some (
              explained finished (intent_of "Hermes job" output) (completed_of output)
                (Prim.Native.String.◌++◌ "Withdrawn by its orderer: " reason));
        });
        completed_at = some (some call.now);
      }

  abbrev pub withdrawal_details : Job → String → Fields
  withdrawal_details job reason = field "reason" (str reason) (
      field "previousStatus" (str (status_text job.status))
        (field "previousPhase" (phase_or_null (phase_of (output_of job))) end))

  unfoldable pub store_withdrawn : World → Job → Actor → String → Option (World × Reply)
  store_withdrawn db job actor reason = do
    (db1, updated) ← update_job db job.id call.now (withdrawal_patch job actor reason)
    some (
      audit_job call db1 actor "hermes.job.withdrawn" job.id (withdrawal_details job reason),
      reply_with 200 "" updated false,
    )

  unfoldable pub withdraw : World → Actor → String → Option String → Option (World × Reply)
  withdraw db actor id text =
      if not (is_automation actor)
      then some (
        db,
        refused 403
            "only the ordering automation account withdraws its own job; the operator rejects",
      )
      else elim (given_reason text) [
        | none ↦ some (db, refused 400 "a reason is required to withdraw a job")
        | some reason ↦ elim (get_job db id) [
          | none ↦ some (db, refused 404 "job not found")
          | some job ↦
              if not (is_hermes job.subject_id)
              then some (db, refused 404 "job not found")
              else if not (get_job_owner_id db id == some actor.id)
              then some (
                audit_job call db actor "hermes.job.withdraw_refused" id
                    (reason_details "foreign job"),
                refused 403 "only the job's own orderer can withdraw it",
              )
              else if not (is_withdrawable job)
              then some (
                audit_job call db actor "hermes.job.withdraw_refused" id (
                    field "status" (str (status_text job.status))
                      (field "phase" (str (phase_text (phase_of (output_of job)))) end)),
                refused 403 "a job that is executing, decided or finished cannot be withdrawn",
              )
              else store_withdrawn db job actor (slice_to 500 reason)
        ]
      ]
