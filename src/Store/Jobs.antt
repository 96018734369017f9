-- ===== src/Store/Jobs.antt =====
-- db.ts: the table of the jobs.
use mathlib.Core.Option
use wireguard_ops_cockpit.Base.{
  ℕ, ◌/◌, ◌≡◌, ◌≢◌, refl, String, Bool, Option, none, some, List, ◌==◌, ◌&&◌, if◌then◌else◌,
  string_eq, option_eq, nat_eq, arith, filter, Option-cases, inl, inr,
}
use wireguard_ops_cockpit.Base.Options.{◌>>=◌}
use wireguard_ops_cockpit.Base.Sorting.{sort_by}
use wireguard_ops_cockpit.Base.Tables.{update, insert, by_key, by_key-update_self, by_key-update_ne}
use wireguard_ops_cockpit.Store.{Db, JobRow, JobKind, JobStatus, SessionRow}

-- `===` on job statuses
abbrev pub status_code : JobStatus → ℕ
status_code JobStatus.pending = 0
status_code JobStatus.pending_approval = 1
status_code JobStatus.running = 2
status_code JobStatus.completed = 3
status_code JobStatus.blocked_user_approval = 4
status_code JobStatus.blocked_policy = 5
status_code JobStatus.blocked_prerequisite = 6
status_code JobStatus.blocked_runner_busy = 7
status_code JobStatus.failed_execution = 8
status_code JobStatus.failed_verification = 9
status_code JobStatus.rollback_completed = 10
status_code JobStatus.rejected = 11
status_code JobStatus.withdrawn = 12
status_code JobStatus.failed = 13

pub record NewJob (O : Type 0) : Type 0 where
  pub session_id : Option String
  pub kind : JobKind
  pub subject_id : Option String
  pub status : JobStatus
  pub requires_approval : Bool
  pub approval_id : Option String
  pub output : Option O
  pub completed_at : Option ℕ

-- The input of `updateJob`: `none` for what is left out; a `completedAt` of null is `some none`.
pub record JobPatch (O : Type 0) : Type 0 where
  pub status : JobStatus
  pub approval_id : Option String
  pub output : Option O
  pub completed_at : Option (Option ℕ)

-- `value ?? current`
abbrev pub or_else : {A : Type 0} → Option A → Option A → Option A
or_else (some a) _ = some a
or_else none current = current

module _ {O : Type 0} where
  abbrev pub job_id : JobRow O → String
  job_id job = job.id

  unfoldable pub get_job : Db O → String → Option (JobRow O)
  get_job db id = by_key job_id id db.jobs

  unfoldable pub create_job : Db O → String → ℕ → NewJob O → Db O × JobRow O
  create_job db id now input =
      let job : JobRow O = record {
        id = id;
        session_id = input.session_id;
        kind = input.kind;
        subject_id = input.subject_id;
        status = input.status;
        requires_approval = input.requires_approval;
        approval_id = input.approval_id;
        output = input.output;
        created_at = now;
        updated_at = now;
        completed_at = input.completed_at;
      } in
      (record db { jobs = insert job db.jobs }, job)

  abbrev pub patched : JobPatch O → ℕ → JobRow O → JobRow O
  patched input now job = record job {
    status = input.status;
    approval_id = or_else input.approval_id job.approval_id;
    output = or_else input.output job.output;
    updated_at = now;
    completed_at = Option.get_or input.completed_at job.completed_at;
  }

  -- `none` is the error "job not found".
  unfoldable pub update_job : Db O → String → ℕ → JobPatch O → Option (Db O × JobRow O)
  unfolding get_job
  update_job db id now input = do
    current ← get_job db id
    some (
      record db { jobs = update (λ job. job.id == id) (λ job. patched input now job) db.jobs },
      patched input now current,
    )

  -- The owner of the session that a job is joined with.
  unfoldable pub owner_of_job : Db O → String → Option String
  unfolding get_job
  owner_of_job db id = do
    job ← get_job db id
    session_id ← job.session_id
    session ← by_key (λ (s : SessionRow). s.id) session_id db.sessions
    session.owner_id

  -- `getJobOwnerId`: `row?.owner_id || null`
  unfoldable pub get_job_owner_id : Db O → String → Option String
  unfolding owner_of_job
  get_job_owner_id db id = do owner ← owner_of_job db id; if owner == "" then none else some owner

  -- `getJobForActor`
  unfoldable pub get_job_for_actor : Db O → String → String → Option (JobRow O)
  unfolding owner_of_job get_job
  get_job_for_actor db id actor_id =
      if owner_of_job db id == some actor_id then get_job db id else none

  -- `listRunningJobs` and `listJobsByStatus`, in the order of creation
  unfoldable pub list_jobs_by_status : Db O → String → JobStatus → List (JobRow O)
  unfolding sort_by
  list_jobs_by_status db subject_id status =
      sort_by (λ job. job.created_at / 1000)
        (filter
          (λ job. job.subject_id == some subject_id && status_code job.status == status_code status)
          db.jobs)

  -- An update of a job changes the row of that job and of no other, and no other table.
  pub get_job-update_job :
      (db db' : Db O) (id j : String) (now : ℕ) (input : JobPatch O) (job : JobRow O)
      → update_job db id now input ≡ some (db', job)
      → (get_job db' id ≡ some job)
        × (j ≢ id → get_job db' j ≡ get_job db j)
        × (db' ≡ record db { jobs = db'.jobs })
  unfolding update_job
  get_job-update_job db db' id j now input job h =
      let self = by_key-update_self job_id (patched input now) (λ x. refl) id db.jobs in
      let other = by_key-update_ne job_id (patched input now) (λ x. refl) id j in
      elim (Option-cases (by_key job_id id db.jobs)) [
        | inl missing ↦ absurd (ground arith)
        | inr (current, found) ↦
            (ground arith, λ ne. (let same = other ne db.jobs in ground arith), ground arith)
      ]

  -- An update that succeeds returns the row that was there, patched.
  pub update_job-patched :
      (db db' : Db O) (id : String) (now : ℕ) (input : JobPatch O) (job : JobRow O)
      → update_job db id now input ≡ some (db', job)
      → (current : JobRow O) × (get_job db id ≡ some current)
        × (job ≡ patched input now current)
        × (db'.audits ≡ db.audits)
  unfolding update_job
  update_job-patched db db' id now input job h = elim (Option-cases (by_key job_id id db.jobs)) [
    | inl missing ↦ absurd (ground arith)
    | inr (current, found) ↦ (current, found, ground arith, ground arith)
  ]

  -- An update of a job that is there succeeds.
  pub update_job-some :
      (db : Db O) (id : String) (now : ℕ) (input : JobPatch O) (current : JobRow O)
      → get_job db id ≡ some current
      → (db' : Db O) × (update_job db id now input ≡ some (db', patched input now current))
  unfolding update_job
  update_job-some db id now input current found = (
    record db { jobs = update (λ job. job.id == id) (λ job. patched input now job) db.jobs },
    rw found refl,
  )
