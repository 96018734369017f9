-- ===== src/Hermes/Approval/Laws.antt =====
-- app.ts: what an approval that starts a run has checked, and that a job is started once.
use mathlib.Core.Option
use mathlib.Core.Path.{subst}
use wireguard_ops_cockpit.Base.{
  ◌≡◌, ◌≢◌, ◌∙◌, refl, sym, ap, String, Bool, true, false, Option, some, List, [], ◌∷◌, arith,
  Option-cases, Bool-cases, inl, inr,
}
use wireguard_ops_cockpit.Envelope.{Crypto, Envelope, EnvelopeError, ok, approve}
use wireguard_ops_cockpit.Hermes.{
  World, Job, Call, Config, Reply, no_output, has_status, intent_of, output_of,
}
use wireguard_ops_cockpit.Hermes.Updating.{visible_job, rewritten}
use wireguard_ops_cockpit.Hermes.Deciding.{
  Pending, awaits_proposal, is_nil, waits, result_of, is_automation, given_reason, override_gate,
}
use wireguard_ops_cockpit.Hermes.Failures.{update_hermes_job-rewritten}
use wireguard_ops_cockpit.Hermes.Review.{envelope_errors_for}
use wireguard_ops_cockpit.Hermes.Approval.{
  start_approved, start_explanation, start_output, decide, decide_reviewed, accept_reviewed,
  reject_reviewed, refuse_envelope,
}
use wireguard_ops_cockpit.Store.{JobStatus}
use wireguard_ops_cockpit.Store.Accounts.{Actor}
use wireguard_ops_cockpit.Store.Jobs.{get_job, get_job_owner_id}

-- A job that waits is there, and not withdrawn.
waits-lem :
    (db : World) (id : String)
    → waits db id ≡ true
    → (job : Job) × (get_job db id ≡ some job) × (has_status job JobStatus.withdrawn ≡ false)
unfolding waits
waits-lem db id h = elim (Option-cases (get_job db id)) [
  | inl missing ↦ absurd (ground arith)
  | inr (job, found) ↦ (job, found, ground arith)
]

is_nil-lem : {A : Type 0} (xs : List A) → is_nil xs ≡ true → xs ≡ []
is_nil-lem [] h = refl
is_nil-lem (x ∷ xs) h = absurd (ground arith)

not_waiting :
    (db : World) (id : String) (job : Job)
    → get_job db id ≡ some job
    → job.status ≡ JobStatus.running
    → waits db id ≡ false
unfolding waits
not_waiting db id job found running = ground arith

module _ (crypto : Crypto) (config : Config) (call : Call) (db db' : World) (pending : Pending)
    (readable : Bool) (reply : Reply)
    (h : start_approved crypto config call db pending readable ≡ some (db', reply))
    (started : reply.starts_run ≡ true) where
  -- If the part after the wait starts a run, the job still awaited the operator, and it is then
  -- stored as running with the approved form of the envelope that the handler held.
  pub start_approved-starts :
      (envelope : Envelope) × (approved_envelope : Envelope) × (job' : Job) × (waits db
          pending.job.id
        ≡ true)
      × ((output_of pending.job).envelope ≡ some envelope)
      × (approve crypto envelope config.secret config.approval_ttl call.now ≡ ok approved_envelope)
      × (get_job db' pending.job.id ≡ some job')
      × (job'.status ≡ JobStatus.running)
      × ((output_of job').envelope ≡ some approved_envelope)
  unfolding start_approved rewritten
  start_approved-starts = elim (Bool-cases (waits db pending.job.id)) [
    | inr decided ↦ absurd (ground arith)
    | inl waiting ↦ elim (Option-cases (output_of pending.job).envelope) [
      | inl bare ↦ absurd (ground arith)
      | inr (envelope, stored) ↦
          elim (Option-cases
            (result_of (approve crypto envelope config.secret config.approval_ttl call.now))) [
              | inl refused ↦ absurd (ground arith)
              | inr (approved_envelope, ran) ↦
                  let (job, found, unfinished) = waits-lem db pending.job.id waiting in
                  let (db1, job', done, kept, running, out) =
                    update_hermes_job-rewritten config call db pending.job.id JobStatus.running
                      (start_explanation pending) (start_output pending approved_envelope) job found
                      unfinished in
                  let same : db' ≡ db1 = ground arith in
                  (
                    envelope,
                    approved_envelope,
                    job',
                    waiting,
                    stored,
                    ground arith,
                    ap (λ d. get_job d pending.job.id) same ∙ kept,
                    running,
                    ap (λ o. (Option.get_or o no_output).envelope) out,
                  )
            ]
    ]
  ]

  -- Of two approvals of one job that both wait for the proposal's file, whatever each of them has
  -- read, only the first to continue starts a run: on the state that it leaves, the second starts
  -- none and changes nothing.
  pub start_approved-once :
      (later : Call) (other : Pending) (found : Bool) (db2 : World) (second : Reply)
      → other.job.id ≡ pending.job.id
      → start_approved crypto config later db' other found ≡ some (db2, second)
      → (second.starts_run ≡ false) × (db2 ≡ db')
  unfolding start_approved
  start_approved-once later other found db2 second same h2 =
      let (envelope, approved_envelope, job', waiting, stored, ran, kept, running, out) =
        start_approved-starts in
      let decided = ap (waits db') same ∙ not_waiting db' pending.job.id job' kept running in
      ground arith

-- What the part before the wait has checked of what it hands on.
abbrev Checked :
    Crypto → Config → Call → World → Actor → String → Option String → String → Pending → Type 0
Checked crypto config call db actor id text owner pending =
    (visible_job db actor id ≡ some pending.job)
    × (has_status pending.job JobStatus.blocked_user_approval ≡ true)
    × (is_automation actor ≡ false)
    × (given_reason text ≡ some pending.reason)
    × (envelope_errors_for crypto config.secret call.now pending.job
          (output_of pending.job).envelope owner pending.intent true
        ≡ some [])

module _ (crypto : Crypto) (config : Config) (call : Call) (db db' : World) (planner : Bool)
    (actor : Actor) (id : String) where
  accept_reviewed-lem :
      (job : Job) (owner reason intent : String) (pending : Pending)
      → accept_reviewed crypto config call db planner job owner actor reason intent
        ≡ some (db', awaits_proposal pending)
      → pending ≡ record { job = job; actor = actor; reason = reason; intent = intent }
  unfolding accept_reviewed
  accept_reviewed-lem job owner reason intent pending h = ground arith

  reject_reviewed-lem :
      (job : Job) (reason intent : String) (pending : Pending)
      → reject_reviewed crypto config call db job actor reason intent
        ≢ some (db', awaits_proposal pending)
  unfolding reject_reviewed
  reject_reviewed-lem job reason intent pending h = ground arith

  refuse_envelope-lem :
      (job : Job) (intent : String) (errors : List EnvelopeError) (pending : Pending)
      → refuse_envelope crypto config call db job actor intent errors
        ≢ some (db', awaits_proposal pending)
  unfolding refuse_envelope
  refuse_envelope-lem job intent errors pending h = ground arith

  decide_reviewed-lem :
      (job : Job) (owner : String) (is_approval : Bool) (reason intent : String) (pending : Pending)
      → decide_reviewed crypto config call db planner job owner actor is_approval reason intent
        ≡ some (db', awaits_proposal pending)
      → (is_approval ≡ true)
        × (envelope_errors_for crypto config.secret call.now job
              (output_of job).envelope
              owner
              intent
              true
            ≡ some [])
        × (pending ≡ record { job = job; actor = actor; reason = reason; intent = intent })
  unfolding decide_reviewed
  decide_reviewed-lem job owner is_approval reason intent pending h =
      let accepts = accept_reviewed-lem job owner reason intent pending in
      let rejects = reject_reviewed-lem job reason intent pending in
      elim (Option-cases (
        envelope_errors_for crypto config.secret call.now job (output_of job).envelope owner intent
          true)) [
            | inl thrown ↦ ground arith
            | inr (errors, checked) ↦
                let refuses = refuse_envelope-lem job intent errors pending in
                let none_left = is_nil-lem errors in ground arith
          ]

  -- An approval reaches the proposal's file only if the actor is no automation account, the job awaits
  -- the operator, the decision is an approval with a reason, and the stored envelope has no error for
  -- the job, its owner and the intent at that time.
  pub decide-checks :
      (decision : Option Bool) (text : Option String) (pending : Pending)
      → decide crypto config call db planner actor id decision text
        ≡ some (db', awaits_proposal pending)
      → (owner : String) × (get_job_owner_id db id ≡ some owner)
        × (visible_job db actor id ≡ some pending.job)
        × (has_status pending.job JobStatus.blocked_user_approval ≡ true)
        × (is_automation actor ≡ false)
        × (decision ≡ some true)
        × (given_reason text ≡ some pending.reason)
        × (envelope_errors_for crypto config.secret call.now pending.job
              (output_of pending.job).envelope
              owner
              pending.intent
              true
            ≡ some [])
  unfolding decide
  decide-checks decision text pending h = elim (Option-cases (visible_job db actor id)) [
    | inl unseen ↦ absurd (ground arith)
    | inr (job, seen) ↦ elim (Option-cases (get_job_owner_id db id)) [
      | inl unowned ↦ absurd (ground arith)
      | inr (owner, owned) ↦ elim (Option-cases (given_reason text)) [
        | inl silent ↦ absurd (ground arith)
        | inr (reason, given) ↦ elim (Option-cases decision) [
          | inl undecided ↦ absurd (ground arith)
          | inr (is_approval, decided) ↦
              let reviewed =
                decide_reviewed-lem job owner is_approval reason
                  (intent_of "Approved Hermes change" (output_of job)) pending in
              elim (Option-cases (override_gate (output_of job))) [
                | inr (gate, held) ↦ absurd (ground arith)
                | inl reviewed_plan ↦
                    let step : decide_reviewed crypto config call db planner job owner actor
                          is_approval reason (intent_of "Approved Hermes change" (output_of job))
                        ≡ some (db', awaits_proposal pending) =
                      ground arith in
                    let (yes_said, valid, same) = reviewed step in
                    let awaited : has_status job JobStatus.blocked_user_approval ≡ true =
                      ground arith in
                    let operator : is_automation actor ≡ false = ground arith in
                    let (a, b, c, d, e) : Checked crypto config call db actor id text owner
                        pending =
                      subst (Checked crypto config call db actor id text owner) (sym same)
                        (seen, awaited, operator, given, valid) in
                    (owner, owned, a, b, c, decided ∙ ap some yes_said, d, e)
              ]
        ]
      ]
    ]
  ]
