-- ===== src/Envelope.antt =====
-- apps/api/src/hermes-security.ts: the execution envelope that binds an approved change job to the
-- reviewed material. SHA-256 over canonical JSON and the HMAC are parameters.
pub mod Capability
pub mod Intake
pub mod Validation
pub mod Renewal
pub mod Life
mod Tests
use wireguard_ops_cockpit.Base.{
  ℕ, ◌+◌, ◌*◌, String, Bool, true, false, Option, none, some, List, [], ◌∷◌, ◌==◌, ◌!=◌, ◌&&◌, ◌||◌,
  not, map, if◌then◌else◌, string_eq, nat_eq, option_eq, list_eq, bool_eq, Comparable, ◌≡◌, ◌↔◌,
  arith, ltb, leb, any,
}
use Prim.Native.Nat.{min}
use text.Mathlib.TextEquality.{eq_iff}
use wireguard_ops_cockpit.Base.Json.{Json, str}
use wireguard_ops_cockpit.Base.Text.{codes, utf16_length, is_hex_digest}
use Capability.{CapabilityId, host_run, sort_capabilities, capability_eq}

pub record Evidence : Type 0 where
  pub source : String
  pub content : String

-- What an envelope keeps of a piece of evidence.
pub record Sealed : Type 0 where
  pub source : String
  pub digest : String
  pub length : ℕ

-- `Omit<ExecutionEnvelope, "digest">`. Times are milliseconds.
pub record Unsigned : Type 0 where
  pub job_id : String
  pub actor_id : String
  pub session_id : String
  pub intent_hash : String
  pub evidence : List Sealed
  pub plan_hash : String
  pub safety_hash : String
  pub policy_hash : String
  pub capabilities : List CapabilityId
  pub manifest_hash : Option String
  pub gate_passed : Option Bool
  pub operator_approved : Option Bool
  pub issued_at : ℕ
  pub expires_at : ℕ

pub record Envelope : Type 0 where
  pub unsigned : Unsigned
  pub digest : String

-- The input of `createExecutionEnvelope` but for the deadline: what a validation expects, too.
pub record Expected : Type 0 where
  pub job_id : String
  pub actor_id : String
  pub session_id : String
  pub intent : String
  pub evidence : List Evidence
  pub plan : String
  pub safety : Json
  pub policy : Json
  pub capabilities : List CapabilityId
  pub manifest_hash : Option String
  pub gate_passed : Option Bool
  pub operator_approved : Option Bool
  pub signing_secret : String

-- The texts of the errors, with that of app.ts for a job that has no envelope.
pub data EnvelopeError : Type 0 where
  signature_mismatch expired binding_mismatch intent_drift plan_drift safety_drift : EnvelopeError
  policy_drift capability_drift manifest_drift approval_drift gate_drift evidence_drift missing :
      EnvelopeError

-- The errors that the deadline changes throw.
pub data Refusal : Type 0 where
  invalid_envelope approved_envelope no_host_run queue_limit_passed : Refusal

pub data Result (A : Type 0) : Type 0 where
  ok : A → Result A
  throws : Refusal → Result A

-- `Boolean(value)`
abbrev pub truthy : Option Bool → Bool
truthy (some true) = true
truthy _ = false

-- `...(value ? { name: true } : {})`
abbrev pub flag : Option Bool → Option Bool
flag value = if truthy value then some true else none

-- `...(text ? { name: text } : {})`
abbrev pub present : Option String → Option String
present none = none
present (some s) = if s == "" then none else some s

-- `if (!passes) errors.push(error)`, and the checks that follow.
abbrev pub check : Bool → EnvelopeError → List EnvelopeError → List EnvelopeError
check passes error rest = if passes then rest else error ∷ rest

abbrev pub minutes : ℕ → ℕ
minutes n = n * 60000

abbrev pub sealed_beq : Sealed → Sealed → Bool
sealed_beq a b = a.source == b.source && (a.digest == b.digest && a.length == b.length)

pub sealed_beq_iff : (a b : Sealed) → (sealed_beq a b ≡ true) ↔ (a ≡ b)
sealed_beq_iff a b = ground (arith, eq_iff a.source b.source, eq_iff a.digest b.digest)

instance abbrev pub sealed_eq : Comparable Sealed
sealed_eq = record { equals = sealed_beq; equals_iff = sealed_beq_iff }

pub record Crypto : Type 0 where
  -- `hashCanonical`: SHA-256 of the JSON text
  pub hash : Json → String
  -- `signEnvelope`: HMAC-SHA-256 of the JSON text, under the secret
  pub sign : Unsigned → String → String

module _ (crypto : Crypto) where
  open crypto use {hash, sign}

  unfoldable pub signed : Unsigned → String → Envelope
  signed unsigned secret = record { unsigned = unsigned; digest = sign unsigned secret }

  -- On two texts of the pattern the comparison of the decoded bytes is that of the texts.
  unfoldable pub verify_signature : Envelope → String → Bool
  verify_signature envelope secret =
      is_hex_digest envelope.digest && envelope.digest == sign envelope.unsigned secret

  unfoldable pub approve : Envelope → String → ℕ → ℕ → Result Envelope
  approve envelope secret ttl now =
      if verify_signature envelope secret
      then ok (
          signed
            (record envelope.unsigned {
              operator_approved = some true;
              issued_at = now;
              expires_at = now + minutes ttl;
            })
            secret)
      else throws invalid_envelope

  unfoldable pub renew : Envelope → String → ℕ → ℕ → ℕ → Result Envelope
  renew envelope secret ttl not_after now =
      if not (verify_signature envelope secret)
      then throws invalid_envelope
      else if truthy envelope.unsigned.operator_approved
      then throws approved_envelope
      else ok (
          signed
            (record envelope.unsigned {
              operator_approved = none;
              issued_at = now;
              expires_at = min (now + minutes ttl) not_after;
            })
            secret)

  unfoldable pub extend_queued : Envelope → String → ℕ → ℕ → ℕ → Result Envelope
  extend_queued envelope secret ttl not_after now =
      if not (verify_signature envelope secret)
      then throws invalid_envelope
      else if not (any (λ c. c == host_run) envelope.unsigned.capabilities)
      then throws no_host_run
      else if not (ltb now not_after)
      then throws queue_limit_passed
      else ok (
          signed
            (record envelope.unsigned {
              issued_at = now;
              expires_at = min (now + minutes ttl) not_after;
            })
            secret)

  unfoldable pub seal : Evidence → Sealed
  seal item = record {
    source = item.source;
    digest = hash (str item.content);
    length = utf16_length (codes item.content);
  }

  unfoldable pub unsigned_of : Expected → ℕ → ℕ → Unsigned
  unfolding seal
  unsigned_of input ttl issued = record {
    job_id = input.job_id;
    actor_id = input.actor_id;
    session_id = input.session_id;
    intent_hash = hash (str input.intent);
    evidence = map seal input.evidence;
    plan_hash = hash (str input.plan);
    safety_hash = hash input.safety;
    policy_hash = hash input.policy;
    capabilities = sort_capabilities input.capabilities;
    manifest_hash = present input.manifest_hash;
    gate_passed = flag input.gate_passed;
    operator_approved = flag input.operator_approved;
    issued_at = issued;
    expires_at = issued + minutes ttl;
  }

  unfoldable pub create : Expected → ℕ → ℕ → Envelope
  unfolding unsigned_of signed
  create input ttl issued = signed (unsigned_of input ttl issued) input.signing_secret

  unfoldable pub validate : Envelope → Expected → ℕ → List EnvelopeError
  validate envelope expected now =
      let e = envelope.unsigned in
      check (verify_signature envelope expected.signing_secret) signature_mismatch (
        check (not (ltb e.expires_at now)) expired (
          check
            (e.job_id == expected.job_id
              && (e.actor_id == expected.actor_id && e.session_id == expected.session_id))
            binding_mismatch
            (check (e.intent_hash == hash (str expected.intent)) intent_drift (
              check (e.plan_hash == hash (str expected.plan)) plan_drift (
                check (e.safety_hash == hash expected.safety) safety_drift (
                  check (e.policy_hash == hash expected.policy) policy_drift (
                    check (e.capabilities == sort_capabilities expected.capabilities)
                      capability_drift
                      (check (e.manifest_hash == expected.manifest_hash) manifest_drift (
                        check (truthy e.operator_approved == truthy expected.operator_approved)
                          approval_drift
                          (check (truthy e.gate_passed == truthy expected.gate_passed) gate_drift (
                            check (e.evidence == map seal expected.evidence) evidence_drift
                              [])))))))))))
