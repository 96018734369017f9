-- ===== src/Envelope/Validation.antt =====
-- hermes-security.ts, `createExecutionEnvelope` and `validateExecutionEnvelope`.
use text.Mathlib.TextEquality.{eq_iff}
use wireguard_ops_cockpit.Base.{
  ℕ, ◌+◌, ◌≤◌, ◌≡◌, ◌≢◌, ◌↔◌, refl, String, Bool, true, Option, none, some, List, [], not, ◌&&◌,
  map, string_eq, option_eq, list_eq, bool_eq, option_beq_iff, list_beq_iff, bool_beq_iff, ltb,
  arith,
}
use wireguard_ops_cockpit.Base.Json.{str}
use wireguard_ops_cockpit.Base.Text.{is_hex_digest}
use wireguard_ops_cockpit.Envelope.{
  Envelope, Unsigned, Expected, EnvelopeError, Crypto, sealed_eq, truthy, present, check, minutes,
  seal, signed, verify_signature, create, validate,
}
use wireguard_ops_cockpit.Envelope.Capability.{capability_eq, sort_capabilities}

-- What HMAC-SHA-256 in hex returns: 64 hexadecimal digits.
abbrev pub SignsHex : Crypto → Type 0
SignsHex crypto = (u : Unsigned) (secret : String) → is_hex_digest (crypto.sign u secret) ≡ true

-- The envelope stands for exactly the expected job, material and approvals, and is in force.
pub record IsBound (crypto : Crypto) (envelope : Envelope) (x : Expected) (now : ℕ) : Type 0 where
  pub genuine : verify_signature crypto envelope x.signing_secret ≡ true
  pub in_force : now ≤ envelope.unsigned.expires_at
  pub job : envelope.unsigned.job_id ≡ x.job_id
  pub actor : envelope.unsigned.actor_id ≡ x.actor_id
  pub session : envelope.unsigned.session_id ≡ x.session_id
  pub intent : envelope.unsigned.intent_hash ≡ crypto.hash (str x.intent)
  pub plan : envelope.unsigned.plan_hash ≡ crypto.hash (str x.plan)
  pub safety : envelope.unsigned.safety_hash ≡ crypto.hash x.safety
  pub policy : envelope.unsigned.policy_hash ≡ crypto.hash x.policy
  pub capabilities : envelope.unsigned.capabilities ≡ sort_capabilities x.capabilities
  pub manifest : envelope.unsigned.manifest_hash ≡ x.manifest_hash
  pub approval : truthy envelope.unsigned.operator_approved ≡ truthy x.operator_approved
  pub gate : truthy envelope.unsigned.gate_passed ≡ truthy x.gate_passed
  pub evidence : envelope.unsigned.evidence ≡ map (seal crypto) x.evidence

check_iff :
    (passes : Bool) (e : EnvelopeError) (rest : List EnvelopeError)
    → (check passes e rest ≡ []) ↔ ((passes ≡ true) × (rest ≡ []))
check_iff passes e rest = ground arith

and3_iff : (a b c : Bool) → ((a && (b && c)) ≡ true) ↔ ((a ≡ true) × (b ≡ true) × (c ≡ true))
and3_iff a b c = ground arith

ltb_iff : (a b : ℕ) → (not (ltb a b) ≡ true) ↔ (b ≤ a)
ltb_iff a b = ground arith

module _ (crypto : Crypto) (envelope : Envelope) (x : Expected) (now : ℕ) where
  validate_sound : validate crypto envelope x now ≡ [] → IsBound crypto envelope x now
  unfolding validate
  validate_sound h0 =
      let (genuine, h1) = (check_iff _ _ _).0 h0 in
      let (in_force, h2) = (check_iff _ _ _).0 h1 in
      let (binding, h3) = (check_iff _ _ _).0 h2 in
      let (intent, h4) = (check_iff _ _ _).0 h3 in
      let (plan, h5) = (check_iff _ _ _).0 h4 in
      let (safety, h6) = (check_iff _ _ _).0 h5 in
      let (policy, h7) = (check_iff _ _ _).0 h6 in
      let (capabilities, h8) = (check_iff _ _ _).0 h7 in
      let (manifest, h9) = (check_iff _ _ _).0 h8 in
      let (approval, h10) = (check_iff _ _ _).0 h9 in
      let (gate, h11) = (check_iff _ _ _).0 h10 in
      let (evidence, _) = (check_iff _ _ _).0 h11 in
      let (job, actor, session) = (and3_iff _ _ _).0 binding in
      record {
        genuine = genuine;
        in_force = (ltb_iff _ _).0 in_force;
        job = (eq_iff _ _).0 job;
        actor = (eq_iff _ _).0 actor;
        session = (eq_iff _ _).0 session;
        intent = (eq_iff _ _).0 intent;
        plan = (eq_iff _ _).0 plan;
        safety = (eq_iff _ _).0 safety;
        policy = (eq_iff _ _).0 policy;
        capabilities = (list_beq_iff _ _).0 capabilities;
        manifest = (option_beq_iff _ _).0 manifest;
        approval = (bool_beq_iff _ _).0 approval;
        gate = (bool_beq_iff _ _).0 gate;
        evidence = (list_beq_iff _ _).0 evidence;
      }

  validate_complete : IsBound crypto envelope x now → validate crypto envelope x now ≡ []
  unfolding validate
  validate_complete b = (check_iff _ _ _).1 (
    b.genuine,
    (check_iff _ _ _).1 (
      (ltb_iff _ _).1 b.in_force,
      (check_iff _ _ _).1 (
        (and3_iff _ _ _).1 ((eq_iff _ _).1 b.job, (eq_iff _ _).1 b.actor, (eq_iff _ _).1 b.session),
        (check_iff _ _ _).1 (
          (eq_iff _ _).1 b.intent,
          (check_iff _ _ _).1 (
            (eq_iff _ _).1 b.plan,
            (check_iff _ _ _).1 (
              (eq_iff _ _).1 b.safety,
              (check_iff _ _ _).1 (
                (eq_iff _ _).1 b.policy,
                (check_iff _ _ _).1 (
                  (list_beq_iff _ _).1 b.capabilities,
                  (check_iff _ _ _).1 (
                    (option_beq_iff _ _).1 b.manifest,
                    (check_iff _ _ _).1 (
                      (bool_beq_iff _ _).1 b.approval,
                      (check_iff _ _ _).1 (
                        (bool_beq_iff _ _).1 b.gate,
                        (check_iff _ _ _).1 ((list_beq_iff _ _).1 b.evidence, refl),
                      ),
                    ),
                  ),
                ),
              ),
            ),
          ),
        ),
      ),
    ),
  )

  -- A validation finds no error exactly when the envelope is signed, in force, and bound to the
  -- expected job, actor, session, intent, plan, reviews, capabilities, manifest, approvals and
  -- evidence.
  pub validate-eq-nil_iff : (validate crypto envelope x now ≡ []) ↔ IsBound crypto envelope x now
  validate-eq-nil_iff = (validate_sound, validate_complete)

present_of_nonempty : (o : Option String) → o ≢ some "" → present o ≡ o
present_of_nonempty none h = refl
present_of_nonempty (some s) h = ground (arith, eq_iff s "")

module _ (crypto : Crypto) (hex : SignsHex crypto) where
  pub signed-verifies :
      (u : Unsigned) (secret : String)
      → verify_signature crypto (signed crypto u secret) secret ≡ true
  unfolding verify_signature signed
  signed-verifies u secret = rw (hex u secret) ((eq_iff _ _).1 refl)

  pub create-IsBound :
      (x : Expected) (ttl issued now : ℕ)
      → x.manifest_hash ≢ some ""
      → now ≤ issued + minutes ttl
      → IsBound crypto (create crypto x ttl issued) x now
  unfolding create
  create-IsBound x ttl issued now m h = record {
    genuine = signed-verifies _ _;
    in_force = h;
    job = refl;
    actor = refl;
    session = refl;
    intent = refl;
    plan = refl;
    safety = refl;
    policy = refl;
    capabilities = refl;
    manifest = present_of_nonempty x.manifest_hash m;
    approval = ground arith;
    gate = ground arith;
    evidence = refl;
  }

  -- A new envelope is valid for what it was created from exactly up to the end of its time to live,
  -- if HMAC returns 64 hexadecimal digits and the manifest hash is not the empty text.
  pub validate-create :
      (x : Expected) (ttl issued now : ℕ)
      → x.manifest_hash ≢ some ""
      → (validate crypto (create crypto x ttl issued) x now ≡ []) ↔ (now ≤ issued + minutes ttl)
  validate-create x ttl issued now m = (
    λ h. unfold create in (validate_sound crypto (create crypto x ttl issued) x now h).in_force,
    λ h. validate_complete crypto _ x now (create-IsBound x ttl issued now m h),
  )
