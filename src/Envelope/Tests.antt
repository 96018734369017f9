-- ===== src/Envelope/Tests.antt =====
-- An envelope with a constant digest as HMAC.
use wireguard_ops_cockpit.Base.{
  ℕ, ◌≡◌, ◌↔◌, ◌≤◌, refl, String, true, false, none, some, [], ◌∷◌, All, length,
}
use wireguard_ops_cockpit.Base.Json.{Json, null, str, arr, obj, field, end, of_list}
use wireguard_ops_cockpit.Base.Text.{is_hex_digest, trim, slice_to}
use wireguard_ops_cockpit.Envelope.{
  Crypto, Envelope, Expected, ok, signed, verify_signature, renew, create, validate,
}
use wireguard_ops_cockpit.Envelope.Capability.{host_run, read_host}
use wireguard_ops_cockpit.Envelope.Intake.{
  InBounds, normalize_entry, normalize_evidence, normalize_evidence-bounds,
}
use wireguard_ops_cockpit.Envelope.Validation.{
  SignsHex, IsBound, validate-eq-nil_iff, validate-create,
}
use wireguard_ops_cockpit.Envelope.Renewal.{content, approved, renew-succeeds_iff, renew-keeps}
use wireguard_ops_cockpit.Envelope.Life.{
  Reach, here, quiet, renewed, Reach-approved, Reach-validate,
}

abbrev digest : String
digest = "0123456789abcdef0123456789abcdef0123456789abcdef0123456789abcdef"

abbrev toy : Crypto
toy = record { hash = λ v. "h"; sign = λ u secret. digest }

toy-hex : SignsHex toy
unfolding is_hex_digest
toy-hex u secret = refl

abbrev order : Expected
order = record {
  job_id = "j1";
  actor_id = "james";
  session_id = "s1";
  intent = "reboot";
  evidence = [];
  plan = "plan";
  safety = null;
  policy = null;
  capabilities = read_host ∷ host_run ∷ [];
  manifest_hash = none;
  gate_passed = some true;
  operator_approved = none;
  signing_secret = "k";
}

abbrev issued : Envelope
issued = create toy order 30 1000

renewed_to : Envelope → ℕ → Envelope
unfolding create
renewed_to e at_most =
    signed toy
      (record e.unsigned { operator_approved = none; issued_at = 2000; expires_at = at_most }) "k"

issued_is_renewed : renew toy issued "k" 30 5000 2000 ≡ ok (renewed_to issued 5000)
unfolding renew renewed_to create verify_signature is_hex_digest signed
issued_is_renewed = refl

validate-eq-nil_iff_example : (validate toy issued order 1000 ≡ []) ↔ IsBound toy issued order 1000
validate-eq-nil_iff_example = validate-eq-nil_iff toy issued order 1000

validate-create_example : (validate toy issued order 2000 ≡ []) ↔ (2000 ≤ 1801000)
validate-create_example = validate-create toy toy-hex order 30 1000 2000 (λ e. cc)

renew-succeeds_iff_example :
    ((e' : Envelope) × (renew toy issued "k" 30 5000 2000 ≡ ok e'))
    ↔ ((verify_signature toy issued "k" ≡ true) × (approved issued ≡ false))
renew-succeeds_iff_example = renew-succeeds_iff toy issued "k" 30 5000 2000

renew-keeps_example :
    (verify_signature toy (renewed_to issued 5000) "k" ≡ true)
    × (content (renewed_to issued 5000).unsigned ≡ content issued.unsigned)
    × (approved (renewed_to issued 5000) ≡ false)
    × ((renewed_to issued 5000).unsigned.expires_at ≤ 5000)
    × ((renewed_to issued 5000).unsigned.expires_at ≤ 1802000)
renew-keeps_example =
    renew-keeps toy issued "k" 30 toy-hex 5000 2000 (renewed_to issued 5000) issued_is_renewed

abbrev after_renewal : Reach toy "k" issued (renewed_to issued 5000) false
after_renewal = quiet here (renewed 30 5000 2000 issued_is_renewed)

Reach-validate_example :
    (validate toy
        (renewed_to issued 5000)
        (record order { operator_approved = (renewed_to issued 5000).unsigned.operator_approved })
        3000
      ≡ [])
    ↔ (3000 ≤ (renewed_to issued 5000).unsigned.expires_at)
Reach-validate_example = Reach-validate toy toy-hex order 30 1000 3000 (λ e. cc) after_renewal

issued-approved : approved issued ≡ false
unfolding create signed
issued-approved = refl

Reach-approved_example : approved (renewed_to issued 5000) ≡ false
Reach-approved_example = Reach-approved toy "k" toy-hex issued-approved after_renewal refl

abbrev sent : Json
sent =
    arr (
      of_list (obj (field "source" (str " mail ") (field "content" (str "hello") end)) ∷ null ∷ []))

normalize_evidence-sent :
    normalize_evidence (some sent) ≡ record { source = "mail"; content = "hello" } ∷ []
unfolding normalize_evidence normalize_entry trim slice_to
normalize_evidence-sent = refl

normalize_evidence-bounds_example :
    All InBounds (normalize_evidence (some sent)) × (length (normalize_evidence (some sent)) ≤ 20)
normalize_evidence-bounds_example = normalize_evidence-bounds (some sent)
