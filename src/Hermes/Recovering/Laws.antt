-- ===== src/Hermes/Recovering/Laws.antt =====
-- app.ts: what the recovery of an interrupted job leaves.
use mathlib.Core.Option
use wireguard_ops_cockpit.Base.{
  ℕ, suc, ◌+◌, ◌≤◌, ◌<◌, ◌≡◌, refl, ap, ◌∙◌, String, Bool, true, false, some, List, [], ◌∷◌, ◌++◌,
  if◌then◌else◌, count, leb, arith, Bool-cases, Option-cases, ◌⊎◌, inl, inr,
}
use wireguard_ops_cockpit.Base.Json.{Json, of_list, to_list-of_list, arr, as_array}
use wireguard_ops_cockpit.Hermes.{
  queued, finished, Output, Job, World, Call, Config, no_output, has_status, output_of,
}
use wireguard_ops_cockpit.Hermes.Deciding.{runnable_request}
use wireguard_ops_cockpit.Hermes.Failures.{update_hermes_job-rewritten}
use wireguard_ops_cockpit.Hermes.Recovering.{
  max_job_replans, replans_of, restarts_of, is_replanned, verdict_of, refused, replan, Verdict,
  Runtime, replan_explanation, replan_output, abandon_patch, abandoned_audit, replanned_audit,
  abandon, replan_job, recover_interrupted_job,
}
use wireguard_ops_cockpit.Hermes.Updating.{rewritten}
use wireguard_ops_cockpit.Hermes.Withdrawing.{phase_of, is_replannable}
use wireguard_ops_cockpit.Hermes.Conditions.{IsEarly, is_replannable-lem}
use wireguard_ops_cockpit.Store.{JobStatus}
use wireguard_ops_cockpit.Store.Audits.{create_audit}
use wireguard_ops_cockpit.Store.Jobs.{get_job, patched, update_job-some, get_job-update_job}

-- A job is planned again only if nothing ran on the host and it was planned again at most once.
verdict_of-lem :
    (db : World) (now : ℕ) (planner : Bool) (job : Job) (runtime : Runtime)
    → verdict_of db now planner job ≡ replan runtime
    → (is_replannable (phase_of (output_of job)) ≡ true)
      × (replans_of (output_of job) < max_job_replans)
unfolding verdict_of
verdict_of-lem db now planner job runtime h =
    elim (Bool-cases (is_replannable (phase_of (output_of job)))) [
      | inr started ↦ absurd (ground arith)
      | inl early ↦ elim (Option-cases (runnable_request (output_of job).request)) [
        | inl missing ↦ absurd (ground arith)
        | inr (request, there) ↦
            elim (Bool-cases (leb max_job_replans (replans_of (output_of job)))) [
              | inl often ↦ absurd (ground arith)
              | inr seldom ↦ (early, ground arith)
            ]
      ]
    ]

Verdict-cases :
    (v : Verdict) → ((r : String) × (v ≡ refused r)) ⊎ ((runtime : Runtime) × (v ≡ replan runtime))
Verdict-cases (refused r) = inl (r, refl)
Verdict-cases (replan runtime) = inr (runtime, refl)

count-snoc :
    (p : Json → Bool) (xs : List Json) (x : Json)
    → count p (xs ++ x ∷ []) ≡ count p xs + (if p x then 1 else 0)
count-snoc p [] x = ground arith
count-snoc p (y ∷ ys) x = ground (arith, count-snoc p ys x)

-- One more restart of a job counts if it is a new plan.
pub replans_of-snoc :
    (output : Output) (entries : List Json) (entry : Json)
    → output.restarts ≡ some (arr (of_list (entries ++ entry ∷ [])))
    → replans_of output ≡ count is_replanned entries + (if is_replanned entry then 1 else 0)
replans_of-snoc output entries entry h =
    ap (λ r. count is_replanned (Option.get_or (as_array r) [])) h
    ∙ ap (count is_replanned) (to_list-of_list (entries ++ entry ∷ []))
    ∙ count-snoc is_replanned entries entry

module _ (config : Config) (call : Call) (db : World) (planner : Bool) (job : Job)
    (found : get_job db job.id ≡ some job)
    (unfinished : has_status job JobStatus.withdrawn ≡ false) where
  -- The outcome of a recovery: the new attempt, or the end of the job.
  abbrev pub Recovered : World → Bool → Job → Type 0
  Recovered db' started job' =
      (get_job db' job.id ≡ some job')
      × (if started
          then IsEarly (phase_of (output_of job))
            × (job'.status ≡ JobStatus.running)
            × (phase_of (output_of job') ≡ some queued)
            × (replans_of (output_of job') ≡ suc (replans_of (output_of job)))
            × (replans_of (output_of job') ≤ 2)
          else (job'.status ≡ JobStatus.failed_execution)
            × (phase_of (output_of job') ≡ some finished)
            × (replans_of (output_of job') ≡ replans_of (output_of job)))

  replan_job-Recovered :
      (runtime : Runtime)
      → is_replannable (phase_of (output_of job)) ≡ true
      → replans_of (output_of job) < max_job_replans
      → (db' : World) × (job' : Job) × (replan_job config call db job runtime ≡ some db')
        × Recovered db' true job'
  unfolding replan_job create_audit get_job rewritten
  replan_job-Recovered runtime early few =
      let (db1, job', done, kept, status, out) =
        update_hermes_job-rewritten config call db job.id JobStatus.running (replan_explanation job)
          (replan_output call.now job runtime) job found unfinished in
      let written : output_of job'
          ≡ rewritten (output_of job) (replan_output call.now job runtime)
              (replan_explanation job) =
        ap (λ o. Option.get_or o no_output) out in
      let more : replans_of (output_of job') ≡ suc (replans_of (output_of job)) =
        replans_of-snoc (output_of job') (restarts_of (output_of job)) _
          (ap (λ (o : Output). o.restarts) written)
        ∙ omega arith in
      (
        create_audit db1 call.audit_id call.now (replanned_audit job),
        job',
        rw done refl,
        (
          kept,
          (is_replannable-lem _ early, status, ap phase_of written, more, omega (arith, more, few)),
        ),
      )

  abandon-Recovered :
      (reason : String)
      → (db' : World) × (job' : Job) × (abandon config call db job reason ≡ some db')
        × Recovered db' false job'
  unfolding abandon create_audit get_job
  abandon-Recovered reason =
      let patch = abandon_patch call.now job reason in
      let (db1, done) = update_job-some db job.id call.now patch job found in
      let job' = patched patch call.now job in
      let kept = (get_job-update_job db db1 job.id job.id call.now patch job' done).0 in
      (
        create_audit db1 call.audit_id call.now (abandoned_audit job reason),
        job',
        rw done refl,
        (
          kept,
          (
            refl,
            refl,
            replans_of-snoc (output_of job') (restarts_of (output_of job)) _ refl ∙ omega arith,
          ),
        ),
      )

  -- The recovery of a stored job that is not withdrawn succeeds. The job is either running again and
  -- queued, which needs a phase before the host (queued, planning, reviewing, waiting_for_host), and
  -- its record holds one new plan more, of at most two; or it has failed and is not started, and its
  -- record holds as many new plans as before.
  pub recover_interrupted_job-bounds :
      (db' : World) × (started : Bool) × (job' : Job) × (recover_interrupted_job config call db
          planner job
        ≡ some (db', started))
      × Recovered db' started job'
  unfolding recover_interrupted_job
  recover_interrupted_job-bounds = elim (Verdict-cases (verdict_of db call.now planner job)) [
    | inl (reason, e) ↦
        let (db', job', done, rest) = abandon-Recovered reason in
        (db', false, job', ground arith, rest)
    | inr (runtime, e) ↦
        let (early, few) = verdict_of-lem db call.now planner job runtime e in
        let (db', job', done, rest) = replan_job-Recovered runtime early few in
        (db', true, job', ground arith, rest)
  ]
