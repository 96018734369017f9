-- ===== src/Hermes/Reactivating/Laws.antt =====
-- app.ts: how often and for how long an expired job is reactivated, and what that changes.
use mathlib.Core.Option
use mathlib.Core.Path.{subst}
use wireguard_ops_cockpit.Base.{
  suc, ◌≤◌, ◌<◌, ◌+◌, ◌*◌, ◌≡◌, ◌∙◌, refl, sym, ap, String, true, false, none, option_beq_iff,
  option_eq, string_eq, some, List, [], ◌∷◌, ◌++◌, length, arith, Option-cases, inl, inr,
}
use wireguard_ops_cockpit.Base.Tables.{by_key-key}
use wireguard_ops_cockpit.Envelope.{Crypto, Envelope, ok, verify_signature, renew}
use wireguard_ops_cockpit.Envelope.Validation.{SignsHex}
use wireguard_ops_cockpit.Envelope.Renewal.{content, approved, renew-keeps}
use wireguard_ops_cockpit.Hermes.{
  World, Job, Call, Config, Reply, ReactivationEntry, no_output, intent_of, output_of,
}
use wireguard_ops_cockpit.Hermes.Conditions.{is_waiting-lem, is_some-none}
use wireguard_ops_cockpit.Hermes.Updating.{visible_job}
use wireguard_ops_cockpit.Hermes.Deciding.{result_of}
use wireguard_ops_cockpit.Hermes.Failures.{get_job-audit_job, get_job-find}
use wireguard_ops_cockpit.Hermes.Review.{envelope_errors_for}
use wireguard_ops_cockpit.Hermes.Reactivating.{
  reactivation_max_count, not_after_of, history_of, is_reactivable, reactivation_patch,
  reactivation_entry, reactivation_details, store_renewed, reactivate_envelope, reactivate,
}
use wireguard_ops_cockpit.Store.{JobStatus}
use wireguard_ops_cockpit.Store.Accounts.{Actor}
use wireguard_ops_cockpit.Store.Jobs.{
  job_id, get_job, get_job_for_actor, get_job_owner_id, update_job, get_job-update_job,
  update_job-patched,
}

length-snoc : {A : Type 0} (xs : List A) (x : A) → length (xs ++ x ∷ []) ≡ suc (length xs)
length-snoc [] x = refl
length-snoc (y ∷ ys) x = ground (arith, length-snoc ys x)

-- What an actor sees of a job is the job of that id.
visible_job-get_job :
    (db : World) (actor : Actor) (id : String) (job : Job)
    → visible_job db actor id ≡ some job
    → get_job db id ≡ some job
unfolding visible_job get_job_for_actor
visible_job-get_job db actor id job h = ground arith

-- A change that awaits the operator, with no decision and no order that replaces it.
abbrev pub IsUndecided : Job → Type 0
IsUndecided job =
    (job.subject_id ≡ some "hermes-change")
    × (job.status ≡ JobStatus.blocked_user_approval)
    × ((output_of job).approval ≡ none)
    × ((output_of job).reorder ≡ none)

is_reactivable-IsUndecided : (job : Job) → is_reactivable job ≡ true → IsUndecided job
unfolding is_reactivable
is_reactivable-IsUndecided job h =
    let change = option_beq_iff job.subject_id (some "hermes-change") in
    (
      ground arith,
      is_waiting-lem job.status (ground arith),
      is_some-none (output_of job).approval (ground arith),
      is_some-none (output_of job).reorder (ground arith),
    )

module _ (crypto : Crypto) (config : Config) (call : Call) (db db' : World) (actor : Actor)
    (reply : Reply) where
  store_renewed-lem :
      (job : Job) (envelope : Envelope)
      → get_job db job.id ≡ some job
      → store_renewed crypto config call db job actor envelope ≡ some (db', reply)
      → (renewed : Envelope) × (job' : Job) × (renew crypto envelope config.secret
            config.approval_ttl
            (not_after_of job)
            call.now
          ≡ ok renewed)
        × (get_job db' job.id ≡ some job')
        × (job'.status ≡ JobStatus.blocked_user_approval)
        × (job'.output ≡ (reactivation_patch call.now job actor envelope renewed).output)
  unfolding store_renewed
  store_renewed-lem job envelope there h =
      elim (Option-cases (
        result_of
          (renew crypto envelope config.secret config.approval_ttl (not_after_of job) call.now))) [
            | inl thrown ↦ absurd (ground arith)
            | inr (renewed, ran) ↦
                elim (Option-cases (
                  update_job db job.id call.now
                    (reactivation_patch call.now job actor envelope renewed))) [
                      | inl failed ↦ absurd (ground arith)
                      | inr ((db1, job1), done) ↦
                          let (current, was, patch, audits) =
                            update_job-patched db db1 job.id call.now _ job1 done in
                          let kept =
                            (get_job-update_job db db1 job.id job.id call.now _ job1 done).0 in
                          let audited =
                            get_job-audit_job call db1 actor "hermes.change.reactivated" job.id
                              (reactivation_details job envelope renewed) job.id in
                          (renewed, job1, ground arith, ground arith, ground arith, ground arith)
                    ]
          ]

  -- What a step that is granted has checked.
  reactivate_envelope-lem :
      (job : Job) (owner : String) (envelope : Envelope)
      → reactivate_envelope crypto config call db job owner actor envelope ≡ some (db', reply)
      → reply.code ≡ 200
      → (approved envelope ≡ false)
        × (envelope.unsigned.expires_at < call.now)
        × (length (history_of (output_of job)) < reactivation_max_count)
        × (envelope_errors_for crypto config.secret call.now job
              (some envelope)
              owner
              (intent_of "Approved Hermes change" (output_of job))
              false
            ≡ some [])
        × (store_renewed crypto config call db job actor envelope ≡ some (db', reply))
  unfolding reactivate_envelope
  reactivate_envelope-lem job owner envelope h granted =
      elim (Option-cases (
        envelope_errors_for crypto config.secret call.now job (some envelope) owner
          (intent_of "Approved Hermes change" (output_of job)) false)) [
            | inl thrown ↦ absurd (ground arith)
            | inr (errors, checked) ↦ ground arith
          ]

  module _ (hex : SignsHex crypto) (id : String)
      (h : reactivate crypto config call db actor id ≡ some (db', reply))
      (granted : reply.code ≡ 200) where
    -- A granted reactivation, as the job before and after and the two envelopes.
    reactivate-lem :
        (job : Job) × (owner : String) × (envelope : Envelope) × (get_job db id ≡ some job)
        × (job.id ≡ id)
        × (is_reactivable job ≡ true)
        × ((output_of job).envelope ≡ some envelope)
        × (reactivate_envelope crypto config call db job owner actor envelope ≡ some (db', reply))
    unfolding reactivate
    reactivate-lem = elim (Option-cases (visible_job db actor id)) [
      | inl unseen ↦ absurd (ground arith)
      | inr (job, seen) ↦ elim (Option-cases (get_job_owner_id db id)) [
        | inl unowned ↦ absurd (ground arith)
        | inr (owner, owned) ↦ elim (Option-cases (output_of job).envelope) [
          | inl bare ↦ absurd (ground arith)
          | inr (envelope, stored) ↦
              let found = visible_job-get_job db actor id job seen in
              let same = by_key-key job_id id db.jobs job (get_job-find db id ∙ found) in
              (job, owner, envelope, found, same, ground arith, stored, ground arith)
        ]
      ]
    ]

    -- If the HMAC returns 64 hexadecimal digits, a reactivation that is answered with 200 found
    -- a change that awaits the operator, with no decision and no reorder, with an expired envelope and
    -- at most two earlier reactivations; afterwards the job still awaits the operator, was reactivated once more, and
    -- its envelope expires at most 72 hours after the job's creation.
    pub reactivate-limits :
        (job : Job) × (job' : Job) × (envelope : Envelope) × (renewed : Envelope) × (get_job db id
          ≡ some job)
        × (get_job db' id ≡ some job')
        × ((output_of job).envelope ≡ some envelope)
        × ((output_of job').envelope ≡ some renewed)
        × IsUndecided job
        × (envelope.unsigned.expires_at < call.now)
        × (renewed.unsigned.expires_at ≤ job.created_at + 72 * 3600000)
        × (job'.status ≡ JobStatus.blocked_user_approval)
        × (length (history_of (output_of job')) ≡ suc (length (history_of (output_of job))))
        × (length (history_of (output_of job')) ≤ 3)
    reactivate-limits =
        let (job, owner, envelope, found, same, may, stored, step) = reactivate-lem in
        let (unapproved, late, few, valid, last) =
          reactivate_envelope-lem job owner envelope step granted in
        let (renewed, job', ran, kept, waits, out) =
          store_renewed-lem job envelope (ground arith) last in
        let (signs, same_content, still, at_most, in_ttl) =
          renew-keeps crypto envelope config.secret config.approval_ttl hex (not_after_of job)
            call.now renewed ran in
        let longer =
          length-snoc (history_of (output_of job))
            (reactivation_entry call.now actor envelope renewed) in
        let grown = ap (λ o. length (history_of (Option.get_or o no_output))) out ∙ longer in
        (
          job,
          job',
          envelope,
          renewed,
          found,
          ap (get_job db') (sym same) ∙ kept,
          stored,
          ap (λ o. (Option.get_or o no_output).envelope) out,
          is_reactivable-IsUndecided job may,
          late,
          at_most,
          waits,
          grown,
          subst (λ n. n ≤ 3) (sym grown) few,
        )

    -- If the HMAC returns 64 hexadecimal digits, a reactivation that is answered with 200
    -- replaces the stored envelope by a renewed one and appends to the history, and leaves every
    -- other field of the output as it is; the new envelope is signed, binds the same material as
    -- the old one, and neither is approved.
    pub reactivate-keeps :
        (job : Job) × (job' : Job) × (envelope : Envelope) × (renewed : Envelope)
        × (entry : ReactivationEntry) × (get_job db id ≡ some job)
        × (get_job db' id ≡ some job')
        × ((output_of job).envelope ≡ some envelope)
        × (output_of job' ≡ record (output_of job) {
          envelope = some renewed;
          reactivations = some (history_of (output_of job) ++ entry ∷ []);
        })
        × (verify_signature crypto renewed config.secret ≡ true)
        × (content renewed.unsigned ≡ content envelope.unsigned)
        × (approved envelope ≡ false)
        × (approved renewed ≡ false)
    reactivate-keeps =
        let (job, owner, envelope, found, same, may, stored, step) = reactivate-lem in
        let (unapproved, late, few, valid, last) =
          reactivate_envelope-lem job owner envelope step granted in
        let (renewed, job', ran, kept, waits, out) =
          store_renewed-lem job envelope (ground arith) last in
        let (signs, same_content, still, at_most, in_ttl) =
          renew-keeps crypto envelope config.secret config.approval_ttl hex (not_after_of job)
            call.now renewed ran in
        (
          job,
          job',
          envelope,
          renewed,
          reactivation_entry call.now actor envelope renewed,
          found,
          ap (get_job db') (sym same) ∙ kept,
          stored,
          ap (λ o. Option.get_or o no_output) out,
          signs,
          same_content,
          unapproved,
          still,
        )
