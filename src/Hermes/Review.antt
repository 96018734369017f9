-- ===== src/Hermes/Review.antt =====
-- apps/api/src/app.ts: what a stored envelope must agree with before a decision uses it.
use wireguard_ops_cockpit.Base.{
  ℕ, String, Bool, Option, none, some, List, [], ◌∷◌, ◌==◌, ◌&&◌, not, ltb, string_eq, option_eq,
  list_eq,
}
use wireguard_ops_cockpit.Base.Options.{◌>>=◌}
use wireguard_ops_cockpit.Base.Json.{str}
use wireguard_ops_cockpit.Envelope.{
  Crypto, Envelope, EnvelopeError, verify_signature, check, signature_mismatch, expired,
  binding_mismatch, intent_drift, plan_drift, safety_drift, policy_drift, capability_drift,
  manifest_drift, missing,
}
use wireguard_ops_cockpit.Envelope.Capability.{capability_eq}
use wireguard_ops_cockpit.Hermes.{Job, Output, output_of}

module _ (crypto : Crypto) where
  open crypto use {hash}

  -- `manifest ? capabilityManifestHash(manifest) : hostRun ? hostRunManifestHash(hostRun) : undefined`
  unfoldable pub manifest_hash_of : Output → Option String
  manifest_hash_of output = elim output.manifest [
    | some manifest ↦ some (hash manifest)
    | none ↦ elim output.host_run [ some host_run ↦ some (hash host_run) | none ↦ none ]
  ]

  -- `none` is the TypeError of a hash over an `undefined` plan, review or policy.
  unfoldable pub envelope_errors_for :
      (secret : String) (now : ℕ)
      → Job
      → Option Envelope
      → String
      → String
      → Bool
      → Option (List EnvelopeError)
  unfolding manifest_hash_of
  envelope_errors_for secret now job stored owner intent check_expiry = elim stored [
    | none ↦ some (missing ∷ [])
    | some envelope ↦ do
      let output = output_of job
      let e = envelope.unsigned
      plan ← output.plan
      safety ← output.safety
      policy ← output.policy
      some (
          check (verify_signature crypto envelope secret) signature_mismatch (
            check (not (check_expiry && ltb e.expires_at now)) expired (
              check
                (e.job_id == job.id && (e.actor_id == owner && some e.session_id == job.session_id))
                binding_mismatch
                (check (e.intent_hash == hash (str intent)) intent_drift (
                  check (e.plan_hash == hash (str plan)) plan_drift (
                    check (e.safety_hash == hash safety) safety_drift (
                      check (e.policy_hash == hash policy) policy_drift (
                        check (some e.capabilities == output.capabilities) capability_drift (
                          check (e.manifest_hash == manifest_hash_of output) manifest_drift
                            [])))))))))
  ]
