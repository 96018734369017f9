-- ===== src/Store.antt =====
-- apps/api/src/db.ts and packages/domain/src/index.ts: the rows of the cockpit's database. A time
-- is the number of milliseconds of its ISO text, an id that `randomUUID` returns is an argument, and
-- so is the time that `now` reads. `O` is the type of a job's output, a JSON object in the source.
pub mod Accounts
pub mod Sessions
pub mod Jobs
pub mod Approvals
pub mod Audits
pub mod Plans
pub mod Schedules
pub mod Listings
mod Tests
use wireguard_ops_cockpit.Base.{ℕ, String, Bool, Option, List}
use wireguard_ops_cockpit.Base.Json.{Json, Fields}

pub data UserRole : Type 0 where
  admin automation : UserRole

pub data TmuxBackend : Type 0 where
  tmux disabled : TmuxBackend

pub data SessionStatus : Type 0 where
  active ended : SessionStatus

pub data JobKind : Type 0 where
  session_ensure execution_plan runbook agent : JobKind

pub data JobStatus : Type 0 where
  pending pending_approval running completed blocked_user_approval blocked_policy : JobStatus
  blocked_prerequisite blocked_runner_busy failed_execution failed_verification : JobStatus
  rollback_completed rejected withdrawn failed : JobStatus

pub data ApprovalStatus : Type 0 where
  pending approved rejected : ApprovalStatus

pub data PlanTarget : Type 0 where
  runbook agent : PlanTarget

pub data PlanStatus : Type 0 where
  blocked pending_approval ready executed rejected : PlanStatus

pub data RiskClass : Type 0 where
  low moderate high : RiskClass

pub data Verdict : Type 0 where
  pending passed blocked approval_required not_run : Verdict

pub data ScheduleStatus : Type 0 where
  draft active paused : ScheduleStatus

pub data ScheduleMode : Type 0 where
  scheduled_plan_only scheduled_auto : ScheduleMode

pub record UserRow : Type 0 where
  pub id : String
  pub username : String
  pub password_hash : String
  pub role : UserRole
  pub created_at : ℕ

pub record AuthSessionRow : Type 0 where
  pub id : String
  pub user_id : String
  pub token_hash : String
  pub expires_at : ℕ
  pub created_at : ℕ

pub record ApiTokenRow : Type 0 where
  pub id : String
  pub user_id : String
  pub label : String
  pub token_hash : String
  pub scopes : List String
  pub created_at : ℕ
  pub last_used_at : Option ℕ

pub record SessionRow : Type 0 where
  pub id : String
  pub name : String
  pub status : SessionStatus
  pub owner_id : Option String
  pub tmux_session_name : String
  pub tmux_backend : TmuxBackend
  pub terminal_url : Option String
  pub created_at : ℕ
  pub updated_at : ℕ
  pub last_activity_at : ℕ

pub record JobRow (O : Type 0) : Type 0 where
  pub id : String
  pub session_id : Option String
  pub kind : JobKind
  pub subject_id : Option String
  pub status : JobStatus
  pub requires_approval : Bool
  pub approval_id : Option String
  pub output : Option O
  pub created_at : ℕ
  pub updated_at : ℕ
  pub completed_at : Option ℕ

pub record ApprovalRow : Type 0 where
  pub id : String
  pub job_id : String
  pub status : ApprovalStatus
  pub requested_by : String
  pub decided_by : Option String
  pub reason : Option String
  pub created_at : ℕ
  pub decided_at : Option ℕ

pub record AuditRow : Type 0 where
  pub id : String
  pub actor_id : Option String
  pub action : String
  pub target_type : String
  pub target_id : Option String
  pub details : Fields
  pub created_at : ℕ

pub record Review : Type 0 where
  pub actor_id : Option String
  pub verdict : Verdict
  pub summary : String
  pub details : Fields

pub record PlanRow : Type 0 where
  pub id : String
  pub session_id : Option String
  pub target_type : PlanTarget
  pub target_id : String
  pub requested_by : String
  pub status : PlanStatus
  pub risk_class : RiskClass
  pub requires_approval : Bool
  pub approval_id : Option String
  pub executed_job_id : Option String
  pub plan_hash : String
  pub plan_summary : String
  pub normalized_input : Fields
  pub planner_review : Review
  pub safety_review : Review
  pub policy_review : Review
  pub pre_execution_hook : Review
  pub runtime_hook : Review
  pub post_execution_hook : Review
  pub created_at : ℕ
  pub updated_at : ℕ

pub record ScheduleRow : Type 0 where
  pub id : String
  pub owner_id : String
  pub runbook_id : String
  pub session_id : String
  pub weekday : ℕ
  pub time_utc : String
  pub timezone : String
  pub requested_mode : ScheduleMode
  pub effective_mode : ScheduleMode
  pub status : ScheduleStatus
  pub runbook_version_hash : String
  pub last_planned_at : Option ℕ
  pub last_run_at : Option ℕ
  pub next_run_at : ℕ
  pub created_at : ℕ
  pub updated_at : ℕ

pub record Db (O : Type 0) : Type 0 where
  pub users : List UserRow
  pub auth_sessions : List AuthSessionRow
  pub api_tokens : List ApiTokenRow
  pub sessions : List SessionRow
  pub jobs : List (JobRow O)
  pub approvals : List ApprovalRow
  pub audits : List AuditRow
  pub plans : List PlanRow
  pub schedules : List ScheduleRow
