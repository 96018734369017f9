-- ===== src/Envelope/Renewal.antt =====
-- hermes-security.ts: `approveExecutionEnvelope`, `renewExecutionEnvelope` and
-- `extendQueuedExecutionEnvelope` change the deadline, and approve.
use Prim.Native.Nat.{min}
use wireguard_ops_cockpit.Base.{
  ℕ, ◌+◌, ◌≤◌, ◌<◌, ◌≡◌, ◌↔◌, ap, sym, String, Bool, true, false, Option, none, some, ◌==◌, any,
  arith,
}
use wireguard_ops_cockpit.Envelope.{
  Envelope, Unsigned, Crypto, ok, truthy, minutes, signed, verify_signature, approve, renew,
  extend_queued,
}
use wireguard_ops_cockpit.Envelope.Capability.{host_run, capability_eq}
use wireguard_ops_cockpit.Envelope.Validation.{SignsHex, signed-verifies}

-- The bound material: everything but the approval of the operator and the times.
abbrev pub content : Unsigned → Unsigned
content u = record u { operator_approved = none; issued_at = 0; expires_at = 0 }

abbrev pub approved : Envelope → Bool
approved e = truthy e.unsigned.operator_approved

abbrev pub holds_host_run : Envelope → Bool
holds_host_run e = any (λ c. c == host_run) e.unsigned.capabilities

-- The unsigned part with a new approval and deadline.
abbrev pub dated : Unsigned → Option Bool → ℕ → ℕ → Unsigned
dated u approval now expires_at = record u {
  operator_approved = approval;
  issued_at = now;
  expires_at = expires_at;
}

min-le : (a b : ℕ) → (min a b ≤ a) × (min a b ≤ b)
min-le a b = (omega arith, omega arith)

module _ (crypto : Crypto) (e : Envelope) (secret : String) (ttl : ℕ) where
  renew_inversion :
      (not_after now : ℕ) (e' : Envelope)
      → renew crypto e secret ttl not_after now ≡ ok e'
      → (verify_signature crypto e secret ≡ true)
        × (approved e ≡ false)
        × (signed crypto (dated e.unsigned none now (min (now + minutes ttl) not_after)) secret
            ≡ e')
  unfolding renew
  renew_inversion not_after now e' h = ground arith

  extend_queued_inversion :
      (not_after now : ℕ) (e' : Envelope)
      → extend_queued crypto e secret ttl not_after now ≡ ok e'
      → (verify_signature crypto e secret ≡ true)
        × (holds_host_run e ≡ true)
        × (now < not_after)
        × (signed crypto
              (dated e.unsigned e.unsigned.operator_approved now
                (min (now + minutes ttl) not_after))
              secret
            ≡ e')
  unfolding extend_queued
  extend_queued_inversion not_after now e' h = ground arith

  approve_inversion :
      (now : ℕ) (e' : Envelope)
      → approve crypto e secret ttl now ≡ ok e'
      → (verify_signature crypto e secret ≡ true)
        × (signed crypto (dated e.unsigned (some true) now (now + minutes ttl)) secret ≡ e')
  unfolding approve
  approve_inversion now e' h = ground arith

  -- A renewal succeeds exactly for a genuine envelope that the operator has not approved.
  pub renew-succeeds_iff :
      (not_after now : ℕ)
      → ((e' : Envelope) × (renew crypto e secret ttl not_after now ≡ ok e'))
        ↔ ((verify_signature crypto e secret ≡ true) × (approved e ≡ false))
  unfolding renew
  renew-succeeds_iff not_after now = (
    λ (e', h). ground arith,
    λ (genuine, open_). (
      signed crypto (dated e.unsigned none now (min (now + minutes ttl) not_after)) secret,
      rw (genuine, open_),
    ),
  )

  module _ (hex : SignsHex crypto) where
    -- What a signature of `u` gives: a genuine envelope of `u`.
    genuine_of_signed :
        (u : Unsigned) (e' : Envelope)
        → signed crypto u secret ≡ e'
        → (verify_signature crypto e' secret ≡ true) × (e'.unsigned ≡ u)
    unfolding signed
    genuine_of_signed u e' same =
        let kept : e'.unsigned ≡ u = sym (ap (λ (x : Envelope). x.unsigned) same) in
        (rw (← same) (signed-verifies crypto hex u secret), kept)

    -- A renewed envelope is genuine and binds the same material, its deadline passes neither the
    -- time to live nor the limit, and it is not approved.
    pub renew-keeps :
        (not_after now : ℕ) (e' : Envelope)
        → renew crypto e secret ttl not_after now ≡ ok e'
        → (verify_signature crypto e' secret ≡ true)
          × (content e'.unsigned ≡ content e.unsigned)
          × (approved e' ≡ false)
          × (e'.unsigned.expires_at ≤ not_after)
          × (e'.unsigned.expires_at ≤ now + minutes ttl)
    renew-keeps not_after now e' h =
        let (_, _, same) = renew_inversion not_after now e' h in
        let (genuine, kept) = genuine_of_signed _ e' same in
        let (le_ttl, le_limit) = min-le (now + minutes ttl) not_after in
        (genuine, ap content kept, ground arith, ground arith, ground arith)

    -- An envelope that is extended in the queue holds `host.run`; it stays genuine, with the same
    -- material and the same approval, and its deadline does not pass the limit of the queue.
    pub extend_queued-keeps :
        (not_after now : ℕ) (e' : Envelope)
        → extend_queued crypto e secret ttl not_after now ≡ ok e'
        → (verify_signature crypto e' secret ≡ true)
          × (content e'.unsigned ≡ content e.unsigned)
          × (approved e' ≡ approved e)
          × (holds_host_run e ≡ true)
          × (e'.unsigned.expires_at ≤ not_after)
    extend_queued-keeps not_after now e' h =
        let (_, host, _, same) = extend_queued_inversion not_after now e' h in
        let (genuine, kept) = genuine_of_signed _ e' same in
        let (_, le_limit) = min-le (now + minutes ttl) not_after in
        (
          genuine,
          ap content kept,
          ap (λ (u : Unsigned). truthy u.operator_approved) kept,
          host,
          ground arith,
        )

    -- An approved envelope is genuine and binds the same material for a new time to live.
    pub approve-keeps :
        (now : ℕ) (e' : Envelope)
        → approve crypto e secret ttl now ≡ ok e'
        → (verify_signature crypto e' secret ≡ true)
          × (content e'.unsigned ≡ content e.unsigned)
          × (approved e' ≡ true)
          × (e'.unsigned.expires_at ≡ now + minutes ttl)
    approve-keeps now e' h =
        let (_, same) = approve_inversion now e' h in
        let (genuine, kept) = genuine_of_signed _ e' same in
        (genuine, ap content kept, ground arith, ground arith)
