-- ===== src/Hermes/Failures.antt =====
-- app.ts and circuit-breaker.ts: what an update of a change job leaves for the circuit breaker, and
-- that a withdrawn job is never written again.
use text.Mathlib.TextEquality.{eq_iff}
use wireguard_ops_cockpit.Base.Tables.{by_key}
use wireguard_ops_cockpit.Base.{
  Option, ◌⊎◌, ℕ, ◌≡◌, ◌+◌, ◌/◌, refl, ◌∙◌, String, true, false, none, some, arith, length, leb,
  ◌&&◌, if◌then◌else◌, string_eq, Option-cases, Bool-cases, inl, inr, count, nat_eq,
}
use wireguard_ops_cockpit.Hermes.{
  World, Job, Call, Config, Output, HermesExplanation, has_status, output_of,
}
use wireguard_ops_cockpit.Hermes.Updating.{
  audit_job, ended_at, update_hermes_job, is_real_failure, audit_failure, failure_of, rewritten,
}
use wireguard_ops_cockpit.Base.Json.{Fields}
use wireguard_ops_cockpit.Store.Accounts.{Actor}
use wireguard_ops_cockpit.Store.{JobStatus}
use wireguard_ops_cockpit.Store.Jobs.{
  or_else, job_id, get_job, update_job, get_job-update_job, update_job-patched, update_job-some,
  patched,
}
use wireguard_ops_cockpit.Store.Audits.{
  create_audit, audit_row, count-create_audit, is_failure_since, list_change_failures_since,
  length-list_change_failures_since,
}

pub get_job-audit_job :
    (call : Call) (db : World) (actor : Actor) (action id : String) (details : Fields) (j : String)
    → get_job (audit_job call db actor action id details) j ≡ get_job db j
unfolding audit_job create_audit get_job
get_job-audit_job call db actor action id details j = refl

pub get_job-find : (db : World) (id : String) → by_key job_id id db.jobs ≡ get_job db id
unfolding get_job
get_job-find db id = refl

get_job-audit_failure :
    (config : Config) (call : Call) (db : World) (id : String) (status : JobStatus)
    (detail : HermesExplanation) (job : Job)
    → get_job (audit_failure config call db status detail job) id ≡ get_job db id
unfolding audit_failure create_audit get_job
get_job-audit_failure config call db id status detail job =
    elim (Bool-cases (is_real_failure status job)) [
      | inl counts ↦ ground arith
      | inr other ↦ ground arith
    ]

-- An audit of a failure adds one failure to those that the breaker reads, if it is a real one in the
-- window.
count-audit_failure :
    (config : Config) (call : Call) (db : World) (status : JobStatus) (detail : HermesExplanation)
    (job : Job) (since : ℕ)
    → count
        (is_failure_since since config.runtime_fingerprint)
        (audit_failure config call db status detail job).audits
      ≡ count (is_failure_since since config.runtime_fingerprint) db.audits
        + (if is_real_failure status job && leb (since / 1000) (call.now / 1000) then 1 else 0)
unfolding audit_failure
count-audit_failure config call db status detail job since =
    let p = is_failure_since since config.runtime_fingerprint in
    let row = audit_row call.audit_id call.now (failure_of config call status detail job) in
    let reads : p row ≡ leb (since / 1000) (call.now / 1000) =
      ground (arith, eq_iff config.runtime_fingerprint config.runtime_fingerprint) in
    let counted =
      count-create_audit p db call.audit_id call.now (failure_of config call status detail job) in
    elim (Bool-cases (is_real_failure status job)) [
      | inl counts ↦ ground arith
      | inr other ↦ ground arith
    ]

-- What is new, or what was there where nothing is new.
abbrev pub IsCarried : {A : Type 0} → Option A → Option A → Option A → Type 0
IsCarried {A} new old result =
    ((x : A) × (new ≡ some x) × (result ≡ some x)) ⊎ ((new ≡ none) × (result ≡ old))

IsCarried-or_else : {A : Type 0} (new old : Option A) → IsCarried new old (or_else new old)
IsCarried-or_else none old = inr (refl, refl)
IsCarried-or_else (some x) old = inl (x, refl, refl)

-- An output without the explanation and the four fields that are carried over.
abbrev pub fresh_part : Output → Output
fresh_part output = record output {
  request = none;
  restarts = none;
  execution_started_at = none;
  host_run_queue = none;
  explanation = none;
}

module _ (config : Config) (call : Call) (db : World) (id : String) (status : JobStatus)
    (detail : HermesExplanation) (extra : Output) where
  -- A withdrawn job is final: an update returns the job and the tables as they are.
  pub update_hermes_job-withdrawn :
      (job : Job)
      → get_job db id ≡ some job
      → has_status job JobStatus.withdrawn ≡ true
      → update_hermes_job config call db id status detail extra ≡ some (db, job)
  unfolding update_hermes_job
  update_hermes_job-withdrawn job found final = ground arith

  -- The job is found with the new status and the rewritten output.
  pub update_hermes_job-rewritten :
      (job : Job)
      → get_job db id ≡ some job
      → has_status job JobStatus.withdrawn ≡ false
      → (db' : World) × (job' : Job) × (update_hermes_job config call db id status detail extra
          ≡ some (db', job'))
        × (get_job db' id ≡ some job')
        × (job'.status ≡ status)
        × (job'.output ≡ some (rewritten (output_of job) extra detail))
  unfolding update_hermes_job audit_failure
  update_hermes_job-rewritten job found unfinished =
      let (db1, done) =
        update_job-some db id call.now
          (record {
            status = status;
            approval_id = none;
            output = some (rewritten (output_of job) extra detail);
            completed_at = some (ended_at status call.now);
          })
          job found in
      let job' =
        patched
          (record {
            status = status;
            approval_id = none;
            output = some (rewritten (output_of job) extra detail);
            completed_at = some (ended_at status call.now);
          })
          call.now job in
      (
        audit_failure config call db1 status detail job',
        job',
        ground arith,
        get_job-audit_failure config call db1 id status detail job'
            ∙ (get_job-update_job db db1 id id call.now _ job' done).0,
        refl,
        refl,
      )

  -- An update of a job that is there and not withdrawn succeeds: the job is found with the new
  -- status, and its output is the new one with the new explanation, where the request, the record of
  -- the restarts, the start of the execution and the queue record are those of the new output, or those
  -- of the old one where the new one has none.
  pub update_hermes_job-open :
      (job : Job)
      → get_job db id ≡ some job
      → has_status job JobStatus.withdrawn ≡ false
      → (db' : World) × (job' : Job) × (output : Output) × (update_hermes_job config call db id
            status detail extra
          ≡ some (db', job'))
        × (get_job db' id ≡ some job')
        × (job'.status ≡ status)
        × (job'.output ≡ some output)
        × IsCarried extra.request (output_of job).request output.request
        × IsCarried extra.restarts (output_of job).restarts output.restarts
        × IsCarried extra.execution_started_at
            (output_of job).execution_started_at
            output.execution_started_at
        × IsCarried extra.host_run_queue (output_of job).host_run_queue output.host_run_queue
        × (output.explanation ≡ some detail)
        × (fresh_part output ≡ fresh_part extra)
  unfolding rewritten
  update_hermes_job-open job found unfinished =
      let (db', job', done, kept, status_now, out) =
        update_hermes_job-rewritten job found unfinished in
      (
        db',
        job',
        rewritten (output_of job) extra detail,
        done,
        kept,
        status_now,
        out,
        IsCarried-or_else _ _,
        IsCarried-or_else _ _,
        IsCarried-or_else _ _,
        IsCarried-or_else _ _,
        refl,
        refl,
      )

  -- The breaker reads one failure more after an update of a job that is not withdrawn, if the
  -- update reports a real failure inside the window, and otherwise as many as before.
  pub update_hermes_job-failures :
      (job : Job) (db' : World) (job' : Job) (since : ℕ)
      → get_job db id ≡ some job
      → has_status job JobStatus.withdrawn ≡ false
      → update_hermes_job config call db id status detail extra ≡ some (db', job')
      → length (list_change_failures_since db' since config.runtime_fingerprint)
        ≡ length (list_change_failures_since db since config.runtime_fingerprint)
          + (if is_real_failure status job' && leb (since / 1000) (call.now / 1000) then 1 else 0)
  unfolding update_hermes_job
  update_hermes_job-failures job db' job' since found unfinished h =
      elim (Option-cases (
        update_job db id call.now (record {
          status = status;
          approval_id = none;
          output = some (rewritten (output_of job) extra detail);
          completed_at = some (ended_at status call.now);
        }))) [
          | inl failed ↦ absurd (ground arith)
          | inr ((db1, job1), done) ↦
              let (current, was, patch, audits) =
                update_job-patched db db1 id call.now _ job1 done in
              let counted = count-audit_failure config call db1 status detail job1 since in
              let old = length-list_change_failures_since db since config.runtime_fingerprint in
              let new = length-list_change_failures_since db' since config.runtime_fingerprint in
              ground arith
        ]
