-- ===== src/Hermes/Approval/Tests.antt =====
-- The operator approves the waiting job twice, and both approvals wait for the proposal's file.
use wireguard_ops_cockpit.Base.{◌≡◌, refl, true, false, Option, some, [], String}
use wireguard_ops_cockpit.Base.Text.{is_hex_digest, trim}
use wireguard_ops_cockpit.Envelope.{Envelope, ok, verify_signature, approve}
use wireguard_ops_cockpit.Hermes.{World, Job, Reply, has_status, output_of}
use wireguard_ops_cockpit.Hermes.Updating.{
  visible_job, audit_job, audit_failure, is_real_failure, update_hermes_job,
}
use wireguard_ops_cockpit.Hermes.Approval.{start_approved, decide, decide_reviewed, accept_reviewed}
use wireguard_ops_cockpit.Hermes.Approval.Laws.{
  start_approved-starts, start_approved-once, decide-checks,
}
use wireguard_ops_cockpit.Hermes.Deciding.{
  Pending, Step, awaits_proposal, waits, is_automation, given_reason, is_protected, runtime_session,
}
use wireguard_ops_cockpit.Hermes.Review.{manifest_hash_of, envelope_errors_for}
use wireguard_ops_cockpit.Hermes.Tests.{
  toy, config, jochen, issued, waiting, world, at, left, answer,
}
use wireguard_ops_cockpit.Store.{JobStatus}
use wireguard_ops_cockpit.Store.Audits.{create_audit}
use wireguard_ops_cockpit.Store.Jobs.{get_job, get_job_owner_id, owner_of_job, update_job}
use wireguard_ops_cockpit.Store.Sessions.{get_session_for_actor}

abbrev pending : Pending
pending = record { job = waiting; actor = jochen; reason = "go"; intent = "reboot" }

abbrev deciding : Option (World × Step)
deciding = decide toy config (at 1500) (world waiting) true jochen "j1" (some true) (some "go")

decides : deciding ≡ some (left (world waiting) deciding, awaits_proposal pending)
unfolding decide visible_job get_job get_job_owner_id owner_of_job given_reason trim decide_reviewed
    envelope_errors_for manifest_hash_of verify_signature is_hex_digest accept_reviewed is_protected
    runtime_session get_session_for_actor audit_job create_audit
decides = refl

decide-checks_example :
    (owner : String) × (get_job_owner_id (world waiting) "j1" ≡ some owner)
    × (visible_job (world waiting) jochen "j1" ≡ some waiting)
    × (has_status waiting JobStatus.blocked_user_approval ≡ true)
    × (is_automation jochen ≡ false)
    × (some true ≡ some true)
    × (given_reason (some "go") ≡ some "go")
    × (envelope_errors_for toy "k" 1500 waiting (some issued) owner "reboot" true ≡ some [])
decide-checks_example =
    decide-checks toy config (at 1500) (world waiting) (left (world waiting) deciding) true jochen
      "j1" (some true) (some "go") pending decides

abbrev starting : Option (World × Reply)
starting = start_approved toy config (at 1600) (world waiting) pending true

starts : starting ≡ some (left (world waiting) starting, answer starting)
unfolding start_approved waits get_job approve verify_signature is_hex_digest update_hermes_job
    update_job
starts = refl

starting-started : (answer starting).starts_run ≡ true
unfolding start_approved waits get_job approve verify_signature is_hex_digest update_hermes_job
    update_job
starting-started = refl

start_approved-starts_example :
    (envelope : Envelope) × (approved_envelope : Envelope) × (job' : Job) × (waits
        (world waiting)
        "j1"
      ≡ true)
    × (some issued ≡ some envelope)
    × (approve toy envelope "k" 30 1600 ≡ ok approved_envelope)
    × (get_job (left (world waiting) starting) "j1" ≡ some job')
    × (job'.status ≡ JobStatus.running)
    × ((output_of job').envelope ≡ some approved_envelope)
start_approved-starts_example =
    start_approved-starts toy config (at 1600) (world waiting) (left (world waiting) starting)
      pending true (answer starting) starts starting-started

abbrev again : Option (World × Reply)
again = start_approved toy config (at 1700) (left (world waiting) starting) pending true

runs_again : again ≡ some (left (world waiting) again, answer again)
unfolding start_approved waits get_job approve verify_signature is_hex_digest update_hermes_job
    update_job audit_failure is_real_failure
runs_again = refl

start_approved-once_example :
    ((answer again).starts_run ≡ false)
    × (left (world waiting) again ≡ left (world waiting) starting)
start_approved-once_example =
    start_approved-once toy config (at 1600) (world waiting) (left (world waiting) starting) pending
      true (answer starting) starts starting-started (at 1700) pending true
      (left (world waiting) again) (answer again) refl runs_again
