-- ===== src/Hermes/Recovering/Life.antt =====
-- app.ts: how often a job is planned again over all restarts of the API, between which it is updated.
use mathlib.Core.Option
use wireguard_ops_cockpit.Base.{ℕ, suc, ◌≡◌, String, Bool, false, none, some, if◌then◌else◌}
use wireguard_ops_cockpit.Hermes.{World, Job, Call, Config, Output, HermesExplanation, output_of}
use wireguard_ops_cockpit.Hermes.Recovering.{follows_host_run, replans_of, recover_interrupted_job}
use wireguard_ops_cockpit.Hermes.Updating.{update_hermes_job, mark_execution_started}
use wireguard_ops_cockpit.Store.{JobStatus}
use wireguard_ops_cockpit.Store.Jobs.{get_job}

-- What happens to a job from `w` on, with the number of times that its run was started again: a restart
-- of the API recovers it where it is running and follows no host run; `updateHermesJob` writes it,
-- with an output that brings no restarts, as every call but that of the recovery; the start of its
-- execution is marked; or the state changes and the job does not.
pub data Life (config : Config) (id : String) (w : World) : ℕ → World → Type 0 where
  begin : Life config id w 0 w
  restarted :
      {n : ℕ} {w1 w2 : World} (call : Call) (planner : Bool) (job : Job) (started : Bool)
      → Life config id w n w1
      → get_job w1 id ≡ some job
      → job.status ≡ JobStatus.running
      → follows_host_run job ≡ false
      → recover_interrupted_job config call w1 planner job ≡ some (w2, started)
      → Life config id w (if started then suc n else n) w2
  updated :
      {n : ℕ} {w1 w2 : World} (call : Call) (status : JobStatus) (detail : HermesExplanation)
      (extra : Output) (job : Job)
      → Life config id w n w1
      → extra.restarts ≡ none
      → update_hermes_job config call w1 id status detail extra ≡ some (w2, job)
      → Life config id w n w2
  marked :
      {n : ℕ} {w1 w2 : World} (call : Call)
      → Life config id w n w1
      → mark_execution_started config call w1 id ≡ some w2
      → Life config id w n w2
  elsewhere :
      {n : ℕ} {w1 w2 : World}
      → Life config id w n w1
      → get_job w2 id ≡ get_job w1 id
      → Life config id w n w2

-- The record of the new plans of the job.
abbrev Replans : World → String → ℕ → Type 0
Replans w id n = (job : Job) × (get_job w id ≡ some job) × (replans_of (output_of job) ≡ n)
