-- ===== src/Plan.antt =====
-- apps/api/src/app.ts: execution plans. The state is the database, the registry of the runbooks, the
-- commands that were started, and how many ids were drawn; a call may throw, and what it wrote before
-- stays written. A handler reads the clock once where the source reads it for each row. A job's
-- output is a JSON object here.
pub mod Reviewing
pub mod Recording
pub mod Creating
pub mod Launching
pub mod Executing
pub mod Approving
pub mod Deciding
pub mod Requests
pub mod Checkpoints
pub mod Tests
pub mod Inner
pub mod Dispatching
pub mod Quiet
use mathlib.Core.Option
use wireguard_ops_cockpit.Base.{
  if◌then◌else◌, ℕ, suc, String, Bool, true, false, Option, none, some, List, [], ◌∷◌, ◌++◌,
}
use wireguard_ops_cockpit.Base.Json.{Json, Fields, lookup, as_string}
use wireguard_ops_cockpit.Base.Actions.{
  Result, done, thrown, Action, pure, throw, gets, or_throw, ◌>>=◌, ◌>>◌,
}
use wireguard_ops_cockpit.Registry.{Registry, Agent, Runbook, Script}
use wireguard_ops_cockpit.Registry.Dispatch.{CommandSpec, LaunchResult, launch_command}
use wireguard_ops_cockpit.Store.{
  Db, JobRow, PlanRow, ApprovalRow, ApprovalStatus, SessionRow, SessionStatus, TmuxBackend, Verdict,
  Review, RiskClass, PlanTarget, PlanStatus,
}
use wireguard_ops_cockpit.Store.Accounts.{Actor}
use wireguard_ops_cockpit.Store.Approvals.{create_approval, decide_approval, get_approval}
use wireguard_ops_cockpit.Store.Audits.{NewAudit, create_audit}
use wireguard_ops_cockpit.Store.Jobs.{NewJob, JobPatch, create_job, update_job}
use wireguard_ops_cockpit.Store.Plans.{
  PlanPatch, create_execution_plan, get_execution_plan, update_execution_plan,
}
use wireguard_ops_cockpit.Store.Sessions.{set_session_status, record_session_activity}

abbrev pub Job : Type 0
Job = JobRow Fields

abbrev pub Database : Type 0
Database = Db Fields

-- A command that the tmux adapter took.
pub record Launch : Type 0 where
  pub session : String
  pub window : String
  pub command : CommandSpec

pub record World : Type 0 where
  pub db : Database
  pub registry : Registry
  pub launched : List Launch
  pub drawn : ℕ

pub record Config : Type 0 where
  pub approval_ttl_minutes : ℕ
  pub repo_root : String
  -- whether `agentBrokerSocket` is set
  pub agent_broker : Bool
  pub backend : TmuxBackend
  -- The SHA-256 of a value's JSON text, `randomUUID` by the number of earlier calls, `path.resolve`
  pub digest : Json → String
  pub uuid : ℕ → String
  pub resolve : String → String → String
  -- The tmux program
  pub run_tmux : String → String → CommandSpec → Option String
  -- `buildAgentCommand`, from the agent, its prompt and its log file
  pub agent_command : Agent → String → String → CommandSpec

-- A call of the database that returns a value, and one that may throw.
abbrev pub store : {A : Type 0} → (Database → Database × A) → Action World A
store f w = let (db, a) = f w.db in (done a, record w { db = db })

abbrev pub stored : {A : Type 0} → String → World → Option (Database × A) → Result A × World
stored message w none = (thrown message, w)
stored message w (some (db, a)) = (done a, record w { db = db })

abbrev pub store_or_throw :
    {A : Type 0} → String → (Database → Option (Database × A)) → Action World A
store_or_throw message f w = stored message w (f w.db)

module _ (config : Config) (now : ℕ) where
  abbrev pub new_id : Action World String
  new_id w = (done (config.uuid w.drawn), record w { drawn = suc w.drawn })

  unfoldable pub audit : NewAudit → Action World (Unit {0})
  audit input = do id ← new_id; store (λ db. (create_audit db id now input, tt))

  unfoldable pub insert_job : NewJob Fields → Action World Job
  insert_job input = do id ← new_id; store (λ db. create_job db id now input)

  unfoldable pub insert_approval : String → String → String → Action World ApprovalRow
  insert_approval job_id requested_by reason = do
    id ← new_id
    store (λ db. create_approval db id now job_id requested_by (some reason))

module _ (now : ℕ) where
  unfoldable pub patch_job : String → JobPatch Fields → Action World Job
  patch_job id input = store_or_throw "job not found" (λ db. update_job db id now input)

  unfoldable pub settle_approval :
      String → ApprovalStatus → String → Option String → Action World ApprovalRow
  settle_approval id status decided_by reason = do
    store (λ db. (decide_approval db id status decided_by reason now, tt))
    or_throw "approval not found" (λ w. get_approval w.db id)

  unfoldable pub patch_plan : String → PlanPatch → Action World PlanRow
  patch_plan id input =
      store_or_throw "execution plan not found" (λ db. update_execution_plan db id now input)

  unfoldable pub touch_session : String → Action World (Unit {0})
  touch_session id = store (λ db. (record_session_activity db id now, tt))

  unfoldable pub revive_session : String → Action World (Unit {0})
  revive_session id = store (λ db. (set_session_status db id SessionStatus.active now, tt))

abbrev pub noted : Launch → World → Result LaunchResult → Result LaunchResult × World
noted l w (thrown message) = (thrown message, w)
noted l w (done result) = (
  done result,
  record w { launched = if result.started then w.launched ++ l ∷ [] else w.launched },
)

-- `tmux.launchCommand`
unfoldable pub launch : Config → String → String → CommandSpec → Action World LaunchResult
launch config session window command w =
    noted (record { session = session; window = window; command = command }) w
      (launch_command config.backend config.run_tmux session window command)

-- A field of a plan's normalized input, if it is a text.
abbrev pub input_text : String → PlanRow → Option String
input_text name plan = as_string (lookup name plan.normalized_input)

pub record Reply : Type 0 where
  pub code : ℕ
  pub message : String
  pub approval : Option ApprovalRow
  pub plan : Option PlanRow
  pub job : Option Job

abbrev pub refused : ℕ → String → Reply
refused code message = record {
  code = code;
  message = message;
  approval = none;
  plan = none;
  job = none;
}
