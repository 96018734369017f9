-- ===== src/Hermes/Tests.antt =====
-- A change job of James that waits for the operator Jochen, with a constant digest as HMAC.
use wireguard_ops_cockpit.Base.{
  ℕ, suc, ◌+◌, ◌*◌, ◌<◌, ◌≤◌, ◌≡◌, refl, String, true, false, Option, none, some, [], ◌∷◌, ◌++◌,
  ◌&&◌, leb, length, if◌then◌else◌, ◌⊎◌,
}
use wireguard_ops_cockpit.Base.Json.{null}
use wireguard_ops_cockpit.Base.Text.{is_hex_digest, trim, slice_to}
use wireguard_ops_cockpit.Envelope.{Crypto, Envelope, Unsigned, signed, verify_signature, renew}
use wireguard_ops_cockpit.Envelope.Capability.{read_host}
use wireguard_ops_cockpit.Envelope.Renewal.{content, approved}
use wireguard_ops_cockpit.Envelope.Validation.{SignsHex}
use wireguard_ops_cockpit.Hermes.{
  World, Job, Call, Config, Output, Reply, no_output, finished, output_of, explained,
  ReactivationEntry,
}
use wireguard_ops_cockpit.Hermes.Updating.{
  visible_job, audit_failure, rewritten, is_real_failure, update_hermes_job,
}
use wireguard_ops_cockpit.Hermes.Deciding.{given_reason}
use wireguard_ops_cockpit.Hermes.Failures.{
  IsCarried, fresh_part, update_hermes_job-open, update_hermes_job-failures,
}
use wireguard_ops_cockpit.Hermes.Reactivating.{
  history_of, is_reactivable, store_renewed, reactivate_envelope, reactivate,
}
use wireguard_ops_cockpit.Hermes.Reactivating.Laws.{
  IsUndecided, reactivate-limits, reactivate-keeps,
}
use wireguard_ops_cockpit.Hermes.Review.{manifest_hash_of, envelope_errors_for}
use wireguard_ops_cockpit.Hermes.Withdrawing.{is_withdrawable, store_withdrawn, withdraw}
use wireguard_ops_cockpit.Hermes.Withdrawing.Laws.{IsUntouched, withdraw-succeeds, withdraw-final}
use wireguard_ops_cockpit.Store.{
  JobKind, JobStatus, SessionRow, admin, automation, tmux, SessionStatus,
}
use wireguard_ops_cockpit.Store.Accounts.{Actor}
use wireguard_ops_cockpit.Store.Audits.{create_audit, list_change_failures_since}
use wireguard_ops_cockpit.Store.Jobs.{
  get_job, get_job_for_actor, get_job_owner_id, owner_of_job, update_job,
}

abbrev pub digest : String
digest = "0123456789abcdef0123456789abcdef0123456789abcdef0123456789abcdef"

abbrev pub toy : Crypto
toy = record { hash = λ v. "h"; sign = λ u secret. digest }

toy-hex : SignsHex toy
unfolding is_hex_digest
toy-hex u secret = refl

abbrev pub config : Config
config = record {
  secret = "k";
  approval_ttl = 30;
  runtime_fingerprint = "r1";
  short_hash = λ s. "0123456789abcdef";
  resolve = λ path. path;
  proposal_root = "/data/proposals";
}

abbrev pub james : Actor
james = record { id = "james"; username = "james"; role = automation }

abbrev pub jochen : Actor
jochen = record { id = "jochen"; username = "jochen"; role = admin }

abbrev pub bound : Unsigned
bound = record {
  job_id = "j1";
  actor_id = "james";
  session_id = "s1";
  intent_hash = "h";
  evidence = [];
  plan_hash = "h";
  safety_hash = "h";
  policy_hash = "h";
  capabilities = read_host ∷ [];
  manifest_hash = none;
  gate_passed = none;
  operator_approved = none;
  issued_at = 1000;
  expires_at = 2000;
}

abbrev pub issued : Envelope
issued = record { unsigned = bound; digest = digest }

abbrev pub reviewed : Output
reviewed = record no_output {
  explanation = some (explained finished "reboot" [] "review");
  plan = some "plan";
  safety = some null;
  policy = some null;
  capabilities = some (read_host ∷ []);
  envelope = some issued;
  proposal_path = some "/data/proposals/j1.json";
}

abbrev pub waiting : Job
waiting = record {
  id = "j1";
  session_id = some "s1";
  kind = JobKind.agent;
  subject_id = some "hermes-change";
  status = JobStatus.blocked_user_approval;
  requires_approval = true;
  approval_id = none;
  output = some reviewed;
  created_at = 1000;
  updated_at = 1000;
  completed_at = none;
}

abbrev pub session : SessionRow
session = record {
  id = "s1";
  name = "hermes";
  status = SessionStatus.active;
  owner_id = some "james";
  tmux_session_name = "cockpit-hermes";
  tmux_backend = tmux;
  terminal_url = none;
  created_at = 0;
  updated_at = 0;
  last_activity_at = 0;
}

abbrev pub world : Job → World
world job = record {
  users = [];
  auth_sessions = [];
  api_tokens = [];
  sessions = session ∷ [];
  jobs = job ∷ [];
  approvals = [];
  audits = [];
  plans = [];
  schedules = [];
}

abbrev pub at : ℕ → Call
at now = record { now = now; audit_id = "a1" }

-- What a handler that returned leaves and answers.
abbrev pub left : {A : Type 0} → World → Option (World × A) → World
left db none = db
left db (some (db', _)) = db'

abbrev pub answer : Option (World × Reply) → Reply
answer none = record { code = 500; message = ""; job = none; starts_run = false }
answer (some (_, reply)) = reply

abbrev running_job : Job
running_job = record waiting {
  status = JobStatus.running;
  output = some (record reviewed { execution_started_at = some 1500 });
}

abbrev failing : Option (World × Job)
failing =
    update_hermes_job config (at 5000) (world running_job) "j1" JobStatus.failed_execution
      (explained finished "reboot" [] "broken") no_output

abbrev updated : Option (World × Job) → Job
updated none = running_job
updated (some (_, job)) = job

fails : failing ≡ some (left (world running_job) failing, updated failing)
unfolding update_hermes_job audit_failure is_real_failure create_audit update_job get_job
fails = refl

abbrev broken : Job
broken = record running_job {
  status = JobStatus.failed_execution;
  output = some (record no_output {
    execution_started_at = some 1500;
    explanation = some (explained finished "reboot" [] "broken");
  });
  updated_at = 5000;
  completed_at = some 5000;
}

failing-updated : updated failing ≡ broken
unfolding update_hermes_job audit_failure is_real_failure create_audit update_job get_job rewritten
failing-updated = refl

update_hermes_job-open_example :
    (db' : World) × (job' : Job) × (output : Output) × (failing ≡ some (db', job'))
    × (get_job db' "j1" ≡ some job')
    × (job'.status ≡ JobStatus.failed_execution)
    × (job'.output ≡ some output)
    × IsCarried no_output.request (output_of running_job).request output.request
    × IsCarried no_output.restarts (output_of running_job).restarts output.restarts
    × IsCarried no_output.execution_started_at
        (output_of running_job).execution_started_at
        output.execution_started_at
    × IsCarried no_output.host_run_queue
        (output_of running_job).host_run_queue
        output.host_run_queue
    × (output.explanation ≡ some (explained finished "reboot" [] "broken"))
    × (fresh_part output ≡ fresh_part no_output)
unfolding get_job
update_hermes_job-open_example =
    update_hermes_job-open config (at 5000) (world running_job) "j1" JobStatus.failed_execution
      (explained finished "reboot" [] "broken") no_output running_job refl refl

update_hermes_job-failures_example :
    length (list_change_failures_since (left (world running_job) failing) 0 "r1")
    ≡ length (list_change_failures_since (world running_job) 0 "r1")
      + (if is_real_failure JobStatus.failed_execution (updated failing) && leb 0 5 then 1 else 0)
unfolding get_job
update_hermes_job-failures_example =
    update_hermes_job-failures config (at 5000) (world running_job) "j1" JobStatus.failed_execution
      (explained finished "reboot" [] "broken") no_output running_job
      (left (world running_job) failing) (updated failing) 0 refl refl fails

abbrev withdrawing : Option (World × Reply)
withdrawing = withdraw (at 5000) (world waiting) james "j1" (some " wrong host ")

withdraws : withdrawing ≡ some (left (world waiting) withdrawing, answer withdrawing)
unfolding withdraw given_reason trim get_job get_job_owner_id owner_of_job is_withdrawable
    store_withdrawn update_job slice_to
withdraws = refl

withdrawing-granted : (answer withdrawing).code ≡ 200
unfolding withdraw given_reason trim get_job get_job_owner_id owner_of_job is_withdrawable
    store_withdrawn update_job slice_to
withdrawing-granted = refl

withdraw-succeeds_example :
    (job : Job) × (job' : Job) × (get_job (world waiting) "j1" ≡ some job)
    × (james.role ≡ automation)
    × (get_job_owner_id (world waiting) "j1" ≡ some "james")
    × ((job.subject_id ≡ some "hermes-change") ⊎ (job.subject_id ≡ some "hermes-research"))
    × IsUntouched job
    × (get_job (left (world waiting) withdrawing) "j1" ≡ some job')
    × (job'.status ≡ JobStatus.withdrawn)
withdraw-succeeds_example =
    withdraw-succeeds (at 5000) (world waiting) (left (world waiting) withdrawing) james
      (answer withdrawing) "j1" (some " wrong host ") withdraws withdrawing-granted

withdraw-final_example :
    (job : Job) × (update_hermes_job config
        (at 9000)
        (left (world waiting) withdrawing)
        "j1"
        JobStatus.failed_execution
        (explained finished "reboot" [] "late")
        no_output
      ≡ some (left (world waiting) withdrawing, job))
withdraw-final_example =
    withdraw-final (at 5000) (world waiting) (left (world waiting) withdrawing) james
      (answer withdrawing) "j1" (some " wrong host ") withdraws withdrawing-granted config (at 9000)
      JobStatus.failed_execution (explained finished "reboot" [] "late") no_output

abbrev reactivating : Option (World × Reply)
reactivating = reactivate toy config (at 5000) (world waiting) james "j1"

reactivates : reactivating ≡ some (left (world waiting) reactivating, answer reactivating)
unfolding reactivate visible_job get_job_for_actor get_job get_job_owner_id owner_of_job
    is_reactivable reactivate_envelope envelope_errors_for manifest_hash_of verify_signature
    is_hex_digest store_renewed renew signed update_job
reactivates = refl

reactivating-granted : (answer reactivating).code ≡ 200
unfolding reactivate visible_job get_job_for_actor get_job get_job_owner_id owner_of_job
    is_reactivable reactivate_envelope envelope_errors_for manifest_hash_of verify_signature
    is_hex_digest store_renewed renew signed update_job
reactivating-granted = refl

reactivate-limits_example :
    (job : Job) × (job' : Job) × (envelope : Envelope) × (renewed : Envelope) × (get_job
        (world waiting)
        "j1"
      ≡ some job)
    × (get_job (left (world waiting) reactivating) "j1" ≡ some job')
    × ((output_of job).envelope ≡ some envelope)
    × ((output_of job').envelope ≡ some renewed)
    × IsUndecided job
    × (envelope.unsigned.expires_at < 5000)
    × (renewed.unsigned.expires_at ≤ job.created_at + 72 * 3600000)
    × (job'.status ≡ JobStatus.blocked_user_approval)
    × (length (history_of (output_of job')) ≡ suc (length (history_of (output_of job))))
    × (length (history_of (output_of job')) ≤ 3)
reactivate-limits_example =
    reactivate-limits toy config (at 5000) (world waiting) (left (world waiting) reactivating) james
      (answer reactivating) toy-hex "j1" reactivates reactivating-granted

reactivate-keeps_example :
    (job : Job) × (job' : Job) × (envelope : Envelope) × (renewed : Envelope)
    × (entry : ReactivationEntry) × (get_job (world waiting) "j1" ≡ some job)
    × (get_job (left (world waiting) reactivating) "j1" ≡ some job')
    × ((output_of job).envelope ≡ some envelope)
    × (output_of job' ≡ record (output_of job) {
      envelope = some renewed;
      reactivations = some (history_of (output_of job) ++ entry ∷ []);
    })
    × (verify_signature toy renewed "k" ≡ true)
    × (content renewed.unsigned ≡ content envelope.unsigned)
    × (approved envelope ≡ false)
    × (approved renewed ≡ false)
reactivate-keeps_example =
    reactivate-keeps toy config (at 5000) (world waiting) (left (world waiting) reactivating) james
      (answer reactivating) toy-hex "j1" reactivates reactivating-granted
