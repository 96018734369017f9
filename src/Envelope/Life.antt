-- ===== src/Envelope/Life.antt =====
-- hermes-security.ts: what may happen to an envelope between its creation and its use.
use wireguard_ops_cockpit.Base.{
  ℕ, ◌≤◌, ◌≡◌, ◌≢◌, ◌↔◌, refl, ap, ◌∙◌, String, Bool, true, false, some, [], arith,
}
use wireguard_ops_cockpit.Envelope.{
  Envelope, Unsigned, Expected, Crypto, ok, truthy, verify_signature, approve, renew, extend_queued,
  create, validate,
}
use wireguard_ops_cockpit.Envelope.Validation.{SignsHex, create-IsBound, validate-eq-nil_iff}
use wireguard_ops_cockpit.Envelope.Renewal.{
  content, approved, renew-keeps, extend_queued-keeps, approve-keeps,
}

module _ (crypto : Crypto) (secret : String) where
  -- The changes that need no decision of the operator.
  pub data Quiet : Envelope → Envelope → Type 0 where
    renewed :
        {e e' : Envelope} (ttl not_after now : ℕ)
        → renew crypto e secret ttl not_after now ≡ ok e'
        → Quiet e e'
    extended :
        {e e' : Envelope} (ttl not_after now : ℕ)
        → extend_queued crypto e secret ttl not_after now ≡ ok e'
        → Quiet e e'

  -- The envelopes that come of `start`; the flag tells whether the operator has approved one.
  pub data Reach (start : Envelope) : Envelope → Bool → Type 0 where
    here : Reach start start false
    quiet : {e e' : Envelope} {b : Bool} → Reach start e b → Quiet e e' → Reach start e' b
    decided :
        {e e' : Envelope} {b : Bool} (ttl now : ℕ)
        → Reach start e b
        → approve crypto e secret ttl now ≡ ok e'
        → Reach start e' true

  module _ (hex : SignsHex crypto) where
    abbrev Same : Envelope → Envelope → Type 0
    Same e e' =
        (verify_signature crypto e' secret ≡ true) × (content e'.unsigned ≡ content e.unsigned)

    Quiet-Same : {e e' : Envelope} → Quiet e e' → Same e e'
    Quiet-Same {e} {e'} (renewed ttl not_after now h) =
        let k = renew-keeps crypto e secret ttl hex not_after now e' h in (k.0, k.1)
    Quiet-Same {e} {e'} (extended ttl not_after now h) =
        let k = extend_queued-keeps crypto e secret ttl hex not_after now e' h in (k.0, k.1)

    -- Whatever is renewed, extended and approved, the envelope stays genuine and binds the material
    -- that it bound at the start.
    pub Reach-Same :
        {start e : Envelope} {b : Bool}
        → verify_signature crypto start secret ≡ true
        → Reach start e b
        → (verify_signature crypto e secret ≡ true) × (content e.unsigned ≡ content start.unsigned)
    Reach-Same v here = (v, refl)
    Reach-Same v (quiet r s) =
        let (_, same) = Reach-Same v r in
        let (genuine, kept) = Quiet-Same s in (genuine, kept ∙ same)
    Reach-Same v (decided {e} {e'} ttl now r h) =
        let (_, same) = Reach-Same v r in
        let k = approve-keeps crypto e secret ttl hex now e' h in (k.0, k.1 ∙ same)

    Quiet-approved : {e e' : Envelope} → Quiet e e' → approved e ≡ false → approved e' ≡ false
    Quiet-approved {e} {e'} (renewed ttl not_after now h) _ =
        (renew-keeps crypto e secret ttl hex not_after now e' h).2
    Quiet-approved {e} {e'} (extended ttl not_after now h) o =
        (extend_queued-keeps crypto e secret ttl hex not_after now e' h).2 ∙ o

    -- An envelope that started unapproved is unapproved unless the operator approved one on the
    -- way: no sequence of renewals and extensions makes an approval.
    pub Reach-approved :
        {start e : Envelope} {b : Bool}
        → approved start ≡ false
        → Reach start e b
        → b ≡ false
        → approved e ≡ false
    Reach-approved h here _ = h
    Reach-approved h (quiet r s) f = Quiet-approved s (Reach-approved h r f)
    Reach-approved h (decided _ _ r s) f = absurd (ground arith)

-- What is renewed, extended and approved of a new envelope is valid for the same material, with
-- the approval that it bears, exactly up to its own deadline, if HMAC returns 64 hexadecimal digits
-- and the manifest hash is not the empty text.
pub Reach-validate :
    (crypto : Crypto) (hex : SignsHex crypto) (x : Expected) (ttl issued now : ℕ) {e : Envelope}
    {b : Bool}
    → x.manifest_hash ≢ some ""
    → Reach crypto x.signing_secret (create crypto x ttl issued) e b
    → (validate crypto e (record x { operator_approved = e.unsigned.operator_approved }) now ≡ [])
      ↔ (now ≤ e.unsigned.expires_at)
Reach-validate crypto hex x ttl issued now {e} m r =
    let start = create-IsBound crypto hex x ttl issued 0 m (omega arith) in
    let (genuine, same) = Reach-Same crypto x.signing_secret hex start.genuine r in
    let iff =
      validate-eq-nil_iff crypto e (record x { operator_approved = e.unsigned.operator_approved })
        now in
    (
      λ h. (iff.0 h).in_force,
      λ h. iff.1 (record {
        genuine = genuine;
        in_force = h;
        job = ap (λ (u : Unsigned). u.job_id) same ∙ start.job;
        actor = ap (λ (u : Unsigned). u.actor_id) same ∙ start.actor;
        session = ap (λ (u : Unsigned). u.session_id) same ∙ start.session;
        intent = ap (λ (u : Unsigned). u.intent_hash) same ∙ start.intent;
        plan = ap (λ (u : Unsigned). u.plan_hash) same ∙ start.plan;
        safety = ap (λ (u : Unsigned). u.safety_hash) same ∙ start.safety;
        policy = ap (λ (u : Unsigned). u.policy_hash) same ∙ start.policy;
        capabilities = ap (λ (u : Unsigned). u.capabilities) same ∙ start.capabilities;
        manifest = ap (λ (u : Unsigned). u.manifest_hash) same ∙ start.manifest;
        approval = refl;
        gate = ap (λ (u : Unsigned). truthy u.gate_passed) same ∙ start.gate;
        evidence = ap (λ (u : Unsigned). u.evidence) same ∙ start.evidence;
      }),
    )
