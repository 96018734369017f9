-- ===== src/Hermes/Withdrawing/Laws.antt =====
-- app.ts: what a withdrawal needs, what it leaves, and that it is final.
use wireguard_ops_cockpit.Base.{
  ◌≡◌, ◌∙◌, String, true, false, none, ◌⊎◌, Option, some, arith, string_eq, option_eq,
  option_beq_iff, Option-cases, Bool-cases, inl, inr, ap, nat_beq,
}
use wireguard_ops_cockpit.Base.Tables.{by_key-key}
use wireguard_ops_cockpit.Base.Text.{slice_to}
use wireguard_ops_cockpit.Hermes.{
  is_some, has_status, output_of, World, Job, Call, Config, Output, HermesExplanation, Reply,
}
use wireguard_ops_cockpit.Hermes.Updating.{update_hermes_job}
use wireguard_ops_cockpit.Hermes.Deciding.{given_reason, is_automation}
use wireguard_ops_cockpit.Hermes.Failures.{
  get_job-audit_job, get_job-find, update_hermes_job-withdrawn,
}
use wireguard_ops_cockpit.Hermes.Withdrawing.{
  is_withdrawable_status, is_replannable, phase_of, is_hermes, is_withdrawable, withdrawal_patch,
  withdrawal_details, store_withdrawn, withdraw,
}
use wireguard_ops_cockpit.Store.{JobStatus, automation}
use wireguard_ops_cockpit.Store.Accounts.{Actor}
use wireguard_ops_cockpit.Store.Jobs.{
  status_code, job_id, get_job, update_job, get_job_owner_id, get_job-update_job,
  update_job-patched,
}
use wireguard_ops_cockpit.Hermes.Conditions.{
  IsWaiting, IsEarly, is_withdrawable_status-lem, is_replannable-lem, is_running-lem, is_some-none,
  is_automation-lem, is_hermes-lem,
}

-- Undecided, not started or requested on the host, and waiting or in an early phase.
abbrev pub IsUntouched : Job → Type 0
IsUntouched job =
    ((output_of job).approval ≡ none)
    × ((output_of job).host_run_started_at ≡ none)
    × ((output_of job).host_run_requested_at ≡ none)
    × (IsWaiting job.status
        ⊎ ((job.status ≡ JobStatus.running)
            × ((e : HermesExplanation) × ((output_of job).explanation ≡ some e)
                × IsEarly (some e.phase))))

is_withdrawable-IsUntouched : (job : Job) → is_withdrawable job ≡ true → IsUntouched job
unfolding is_withdrawable
is_withdrawable-IsUntouched job h =
    let output = output_of job in
    let undecided : is_some output.approval ≡ false = ground arith in
    let unstarted : is_some output.host_run_started_at ≡ false = ground arith in
    let unrequested : is_some output.host_run_requested_at ≡ false = ground arith in
    (
      is_some-none _ undecided,
      is_some-none _ unstarted,
      is_some-none _ unrequested,
      elim (Bool-cases (is_withdrawable_status job.status)) [
        | inl waits ↦ inl (is_withdrawable_status-lem job.status waits)
        | inr other ↦
            let runs : has_status job JobStatus.running ≡ true = ground arith in
            let early : is_replannable (phase_of output) ≡ true = ground arith in
            elim (Option-cases output.explanation) [
              | inl missing ↦ absurd (ground arith)
              | inr (e, there) ↦ inr (
                is_running-lem job.status runs,
                (e, there, is_replannable-lem (some e.phase) (ground arith)),
              )
            ]
      ],
    )

module _ (call : Call) (db db' : World) (actor : Actor) (reply : Reply) where
  -- The stored job is withdrawn, and the audits hold one entry more, which is no failure.
  store_withdrawn-lem :
      (job : Job) (reason : String)
      → store_withdrawn call db job actor reason ≡ some (db', reply)
      → (job' : Job) × (get_job db' job.id ≡ some job') × (job'.status ≡ JobStatus.withdrawn)
  unfolding store_withdrawn
  store_withdrawn-lem job reason h =
      elim (Option-cases (update_job db job.id call.now (withdrawal_patch call job actor reason))) [
        | inl failed ↦ absurd (ground arith)
        | inr ((db1, job1), done) ↦
            let (current, was, patch, audits) =
              update_job-patched db db1 job.id call.now _ job1 done in
            let kept = (get_job-update_job db db1 job.id job.id call.now _ job1 done).0 in
            let audited =
              get_job-audit_job call db1 actor "hermes.job.withdrawn" job.id
                (withdrawal_details call job reason) job.id in
            (job1, ground arith, ground arith)
      ]

  -- A withdrawal that is answered with 200 came from the automation account that ordered the job: a
  -- change or a research, which has no decision and no start or request of a start on the host, and
  -- waits (pending, pending_approval or blocked for the user's approval, a policy, a prerequisite or a
  -- busy runner) or is running in a phase before the host (queued, planning, reviewing,
  -- waiting_for_host); the job is then withdrawn.
  pub withdraw-succeeds :
      (id : String) (text : Option String)
      → withdraw call db actor id text ≡ some (db', reply)
      → reply.code ≡ 200
      → (job : Job) × (job' : Job) × (get_job db id ≡ some job)
        × (actor.role ≡ automation)
        × (get_job_owner_id db id ≡ some actor.id)
        × ((job.subject_id ≡ some "hermes-change") ⊎ (job.subject_id ≡ some "hermes-research"))
        × IsUntouched job
        × (get_job db' id ≡ some job')
        × (job'.status ≡ JobStatus.withdrawn)
  unfolding withdraw
  withdraw-succeeds id text h granted = elim (Option-cases (get_job db id)) [
    | inl missing ↦ absurd (ground arith)
    | inr (job, found) ↦ elim (Option-cases (given_reason text)) [
      | inl missing ↦ absurd (ground arith)
      | inr (reason, given) ↦ elim (Bool-cases (is_withdrawable job)) [
        | inl may ↦
            let owned = option_beq_iff (get_job_owner_id db id) (some actor.id) in
            let stored : store_withdrawn call db job actor (slice_to 500 reason)
                ≡ some (db', reply) =
              ground arith in
            let mine : is_automation actor ≡ true = ground arith in
            let ours : is_hermes job.subject_id ≡ true = ground arith in
            let same = by_key-key job_id id db.jobs job (get_job-find db id ∙ found) in
            let (job', kept, final) = store_withdrawn-lem job (slice_to 500 reason) stored in
            (
              job,
              job',
              found,
              is_automation-lem actor mine,
              ground arith,
              is_hermes-lem job.subject_id ours,
              is_withdrawable-IsUntouched job may,
              ground arith,
              final,
            )
        | inr may_not ↦ absurd (ground arith)
      ]
    ]
  ]

  -- After a withdrawal that is answered with 200, an update of the job leaves every table as it
  -- is, whatever status and output it reports: the job, and the failures that the circuit breaker
  -- reads.
  pub withdraw-final :
      (id : String) (text : Option String)
      → withdraw call db actor id text ≡ some (db', reply)
      → reply.code ≡ 200
      → (config : Config) (later : Call) (status : JobStatus) (detail : HermesExplanation)
      → (extra : Output)
      → (job : Job) × (update_hermes_job config later db' id status detail extra ≡ some (db', job))
  withdraw-final id text h granted config later status detail extra =
      let (job, job', found, mine, owned, ours, may, kept, final) =
        withdraw-succeeds id text h granted in
      (
        job',
        update_hermes_job-withdrawn config later db' id status detail extra job' kept
            (ap (λ s. nat_beq (status_code s) 12) final),
      )
