-- ===== src/Hermes/Recovering/Tests.antt =====
-- A job that was running when the API stopped.
use wireguard_ops_cockpit.Base.{◌≡◌, refl, Bool, true, false, Option, none, some, [], ◌∷◌}
use wireguard_ops_cockpit.Base.Json.{arr, nil}
use wireguard_ops_cockpit.Base.Text.{joined, decimal}
use wireguard_ops_cockpit.Hermes.{World, Job, planning, explained, ChangeRequest, no_output}
use wireguard_ops_cockpit.Hermes.Deciding.{runtime_session}
use wireguard_ops_cockpit.Hermes.Recovering.{
  recover_interrupted_job, verdict_of, runtime_of, replan_job, follows_host_run,
}
use wireguard_ops_cockpit.Hermes.Recovering.Laws.{Recovered, recover_interrupted_job-bounds}
use wireguard_ops_cockpit.Hermes.Recovering.Life.{Life, begin, restarted}
use wireguard_ops_cockpit.Hermes.Tests.{config, waiting, reviewed, world, at}
use wireguard_ops_cockpit.Hermes.Updating.{
  update_hermes_job, audit_failure, is_real_failure, rewritten,
}
use wireguard_ops_cockpit.Store.{JobStatus, automation}
use wireguard_ops_cockpit.Store.Accounts.{get_user_by_id}
use wireguard_ops_cockpit.Store.Audits.{create_audit}
use wireguard_ops_cockpit.Store.Jobs.{get_job, get_job_owner_id, owner_of_job, update_job}
use wireguard_ops_cockpit.Store.Sessions.{get_session_for_actor}

abbrev interrupted : Job
interrupted = record waiting {
  status = JobStatus.running;
  output = some (record reviewed { explanation = some (explained planning "reboot" [] "") });
}

stored : get_job (world interrupted) "j1" ≡ some interrupted
unfolding get_job
stored = refl

recover_interrupted_job-bounds_example :
    (db' : World) × (started : Bool) × (job' : Job) × (recover_interrupted_job config
        (at 5000)
        (world interrupted)
        true
        interrupted
      ≡ some (db', started))
    × Recovered config (at 5000) (world interrupted) true interrupted stored refl db' started job'
recover_interrupted_job-bounds_example =
    recover_interrupted_job-bounds config (at 5000) (world interrupted) true interrupted stored refl

abbrev asked : ChangeRequest
asked = record {
  intent = "reboot";
  evidence = arr nil;
  owned_session = false;
  allowed_capabilities = [];
  execute = true;
  operation = none;
  breaker_key = none;
  breaker_override = none;
}

abbrev ordered : Job
ordered = record interrupted {
  output = some (record no_output {
    explanation = some (explained planning "reboot" [] "");
    request = some asked;
  });
}

abbrev before : World
before = record (world ordered) {
  users =
      record {
        id = "james";
        username = "james";
        password_hash = "";
        role = automation;
        created_at = 0;
      }
      ∷ [];
}

abbrev state_of : World → Option (World × Bool) → World
state_of w none = w
state_of w (some (w', _)) = w'

abbrev after : World
after = state_of before (recover_interrupted_job config (at 5000) before true ordered)

restarts : recover_interrupted_job config (at 5000) before true ordered ≡ some (after, true)
unfolding recover_interrupted_job verdict_of runtime_of get_job_owner_id owner_of_job get_user_by_id
    runtime_session get_session_for_actor get_job replan_job update_hermes_job update_job
    audit_failure is_real_failure rewritten create_audit joined decimal
restarts = refl

ordered_found : get_job before "j1" ≡ some ordered
unfolding get_job
ordered_found = refl

free : follows_host_run ordered ≡ false
unfolding follows_host_run
free = refl

abbrev lived : Life config "j1" before 1 after
lived = restarted (at 5000) true ordered true begin ordered_found refl free restarts
