-- ===== src/Hermes/Conditions.antt =====
-- app.ts: what the Boolean conditions of the handlers of change jobs say.
use wireguard_ops_cockpit.Base.{
  ◌≡◌, refl, String, true, false, none, ◌⊎◌, ◌==◌, Option, some, arith, string_eq, option_eq,
  option_beq_iff, Bool-cases, inl, inr, nat_beq,
}
use wireguard_ops_cockpit.Hermes.{
  HermesPhase, queued, planning, reviewing, waiting_for_host, is_some,
}
use wireguard_ops_cockpit.Hermes.Deciding.{is_automation}
use wireguard_ops_cockpit.Hermes.Withdrawing.{is_withdrawable_status, is_replannable, is_hermes}
use wireguard_ops_cockpit.Store.{JobStatus, UserRole, admin, automation}
use wireguard_ops_cockpit.Store.Accounts.{Actor}
use wireguard_ops_cockpit.Store.Jobs.{status_code}

-- A job that waits, and nobody has started.
abbrev pub IsWaiting : JobStatus → Type 0
IsWaiting status =
    (status ≡ JobStatus.pending)
    ⊎ (status ≡ JobStatus.pending_approval)
    ⊎ (status ≡ JobStatus.blocked_user_approval)
    ⊎ (status ≡ JobStatus.blocked_policy)
    ⊎ (status ≡ JobStatus.blocked_prerequisite)
    ⊎ (status ≡ JobStatus.blocked_runner_busy)

-- The phases before anything runs on the host.
abbrev pub IsEarly : Option HermesPhase → Type 0
IsEarly phase =
    (phase ≡ some queued)
    ⊎ (phase ≡ some planning)
    ⊎ (phase ≡ some reviewing)
    ⊎ (phase ≡ some waiting_for_host)

pub is_withdrawable_status-lem :
    (status : JobStatus) → is_withdrawable_status status ≡ true → IsWaiting status
is_withdrawable_status-lem JobStatus.pending h = inl refl
is_withdrawable_status-lem JobStatus.pending_approval h = inr (inl refl)
is_withdrawable_status-lem JobStatus.blocked_user_approval h = inr (inr (inl refl))
is_withdrawable_status-lem JobStatus.blocked_policy h = inr (inr (inr (inl refl)))
is_withdrawable_status-lem JobStatus.blocked_prerequisite h = inr (inr (inr (inr (inl refl))))
is_withdrawable_status-lem JobStatus.blocked_runner_busy h = inr (inr (inr (inr (inr refl))))
is_withdrawable_status-lem _ h = absurd (ground arith)

pub is_replannable-lem : (phase : Option HermesPhase) → is_replannable phase ≡ true → IsEarly phase
is_replannable-lem (some queued) h = inl refl
is_replannable-lem (some planning) h = inr (inl refl)
is_replannable-lem (some reviewing) h = inr (inr (inl refl))
is_replannable-lem (some waiting_for_host) h = inr (inr (inr refl))
is_replannable-lem _ h = absurd (ground arith)

pub is_running-lem :
    (status : JobStatus)
    → nat_beq (status_code status) (status_code JobStatus.running) ≡ true
    → status ≡ JobStatus.running
is_running-lem JobStatus.running h = refl
is_running-lem _ h = absurd (ground arith)

pub is_waiting-lem :
    (status : JobStatus)
    → nat_beq (status_code status) (status_code JobStatus.blocked_user_approval) ≡ true
    → status ≡ JobStatus.blocked_user_approval
is_waiting-lem JobStatus.blocked_user_approval h = refl
is_waiting-lem _ h = absurd (ground arith)

pub is_some-none : {A : Type 0} (o : Option A) → is_some o ≡ false → o ≡ none
is_some-none none h = refl
is_some-none (some a) h = absurd (ground arith)

UserRole-cases : (role : UserRole) → (role ≡ automation) ⊎ (role ≡ admin)
UserRole-cases automation = inl refl
UserRole-cases admin = inr refl

pub is_automation-lem : (actor : Actor) → is_automation actor ≡ true → actor.role ≡ automation
is_automation-lem actor h = elim (UserRole-cases actor.role) [
  | inl robot ↦ robot
  | inr operator ↦ absurd (ground arith)
]

pub is_hermes-lem :
    (subject : Option String)
    → is_hermes subject ≡ true
    → (subject ≡ some "hermes-change") ⊎ (subject ≡ some "hermes-research")
is_hermes-lem subject h =
    let change = option_beq_iff subject (some "hermes-change") in
    let research = option_beq_iff subject (some "hermes-research") in
    elim (Bool-cases (subject == some "hermes-change")) [
      | inl is_change ↦ inl (ground arith)
      | inr other ↦ inr (ground arith)
    ]
