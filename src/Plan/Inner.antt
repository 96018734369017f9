-- ===== src/Plan/Inner.antt =====
-- apps/api/src/app.ts: the calls of a plan's handlers that neither start a command nor touch an
-- approval.
use wireguard_ops_cockpit.Base.{
  ℕ, ◌≡◌, refl, sym, ap, ◌∙◌, String, Bool, true, false, Option, some, List, if◌then◌else◌,
  Option-cases, inl, inr,
}
use wireguard_ops_cockpit.Base.Actions.{Action, pure, ◌>>=◌, Keeps, Keeps->>=, Result-cases, bound}
use wireguard_ops_cockpit.Base.Json.{Fields}
use wireguard_ops_cockpit.Plan.{
  Config, World, Launch, Database, stored, store_or_throw, audit, insert_job, patch_job, patch_plan,
  touch_session, revive_session,
}
use wireguard_ops_cockpit.Plan.Executing.{record_runbook, record_agent}
use wireguard_ops_cockpit.Registry.{Registry, Runbook, Agent}
use wireguard_ops_cockpit.Registry.Dispatch.{LaunchResult, Dispatch}
use wireguard_ops_cockpit.Store.{PlanRow, SessionRow, ApprovalRow}
use wireguard_ops_cockpit.Store.Accounts.{Actor}
use wireguard_ops_cockpit.Store.Audits.{NewAudit, create_audit}
use wireguard_ops_cockpit.Store.Jobs.{NewJob, JobPatch, create_job, get_job-update_job}
use wireguard_ops_cockpit.Store.Plans.{PlanPatch, get_execution_plan-update}
use wireguard_ops_cockpit.Store.Sessions.{record_session_activity, set_session_status}

-- What the rows of jobs, plans, sessions and audits do not reach.
abbrev pub outside : World → List Launch × Registry × List ApprovalRow
outside w = (w.launched, w.registry, w.db.approvals)

unfoldable pub IsInner : {A : Type 0} → Action World A → Type 0
IsInner m = Keeps outside m

pub store_or_throw-IsInner :
    {A : Type 0} (message : String) (f : Database → Option (Database × A))
    → ((db db' : Database) (a : A) → f db ≡ some (db', a) → db'.approvals ≡ db.approvals)
    → IsInner (store_or_throw message f)
unfolding IsInner
store_or_throw-IsInner message f keeps w = elim (Option-cases (f w.db)) [
  | inl missing ↦ ap (λ o. outside (stored message w o).1) missing
  | inr ((db, a), found) ↦
      ap (λ o. outside (stored message w o).1) found
      ∙ ap (λ rows. (w.launched, w.registry, rows)) (keeps w.db db a found)
]

module _ (config : Config) (now : ℕ) where
  pub audit-IsInner : (input : NewAudit) → IsInner (audit config now input)
  unfolding audit IsInner create_audit
  audit-IsInner input w = refl

  pub insert_job-IsInner : (input : NewJob Fields) → IsInner (insert_job config now input)
  unfolding insert_job IsInner create_job
  insert_job-IsInner input w = refl

module _ (now : ℕ) where
  pub patch_job-IsInner : (id : String) (input : JobPatch Fields) → IsInner (patch_job now id input)
  unfolding patch_job
  patch_job-IsInner id input =
      store_or_throw-IsInner _ _
        (λ db db' job e. ap (λ d. d.approvals) (get_job-update_job db db' id id now input job e).2)

  pub patch_plan-IsInner : (id : String) (input : PlanPatch) → IsInner (patch_plan now id input)
  unfolding patch_plan
  patch_plan-IsInner id input = store_or_throw-IsInner _ _ (λ db db' plan e.
      ap (λ d. d.approvals) (get_execution_plan-update db db' id id now input plan e).2)

  pub touch_session-IsInner : (id : String) → IsInner (touch_session now id)
  unfolding touch_session IsInner record_session_activity
  touch_session-IsInner id w = refl

  pub revive_session-IsInner : (id : String) → IsInner (revive_session now id)
  unfolding revive_session IsInner set_session_status
  revive_session-IsInner id w = refl

pub if-IsInner :
    {A : Type 0} (b : Bool) (m n : Action World A)
    → IsInner m
    → IsInner n
    → IsInner (if b then m else n)
if-IsInner true m n hm hn = hm
if-IsInner false m n hm hn = hn

pub bind-IsInner :
    {A B : Type 0} (m : Action World A) (k : A → Action World B)
    → IsInner m
    → ((a : A) → IsInner (k a))
    → IsInner (m >>= k)
unfolding IsInner
bind-IsInner m k hm hk = Keeps->>= outside m k hm hk

pub pure-IsInner : {A : Type 0} (a : A) → IsInner (pure a)
unfolding IsInner
pure-IsInner a w = refl

module _ (config : Config) (now : ℕ) where
  pub record_runbook-IsInner :
      (plan : PlanRow) (actor : Actor) (runbook : Runbook) (session : SessionRow)
      (dispatch : Dispatch) (result : LaunchResult)
      → IsInner (record_runbook config now plan actor runbook session dispatch result)
  unfolding record_runbook
  record_runbook-IsInner plan actor runbook session dispatch result =
      bind-IsInner _ _ (insert_job-IsInner config now _) (λ job.
        bind-IsInner _ _ (patch_plan-IsInner now _ _) (λ updated.
          bind-IsInner _ _ (touch_session-IsInner now _) (λ t.
            bind-IsInner _ _ (audit-IsInner config now _)
              (λ t. bind-IsInner _ _ (audit-IsInner config now _) (λ t. pure-IsInner _)))))

  pub record_agent-IsInner :
      (plan : PlanRow) (actor : Actor) (agent : Agent) (session : SessionRow) (prompt : String)
      (result : LaunchResult)
      → IsInner (record_agent config now plan actor agent session prompt result)
  unfolding record_agent
  record_agent-IsInner plan actor agent session prompt result =
      bind-IsInner _ _ (insert_job-IsInner config now _) (λ job.
        bind-IsInner _ _ (patch_plan-IsInner now _ _) (λ updated.
          bind-IsInner _ _ (touch_session-IsInner now _) (λ t.
            bind-IsInner _ _ (audit-IsInner config now _)
              (λ t. bind-IsInner _ _ (audit-IsInner config now _) (λ t. pure-IsInner _)))))

-- Calls that reach nothing outside, after one that may.
pub after-IsInner :
    {A B : Type 0} (m : Action World A) (k : A → Action World B) (w : World)
    → ((a : A) → IsInner (k a))
    → outside ((m >>= k) w).1 ≡ outside (m w).1
unfolding IsInner
after-IsInner m k w hk = elim (Result-cases (m w)) [
  | inl (a, s, e) ↦ ap (λ p. outside (bound k p).1) e ∙ hk a s ∙ sym (ap (λ p. outside p.1) e)
  | inr (message, s, e) ↦ ap (λ p. outside (bound k p).1) e ∙ sym (ap (λ p. outside p.1) e)
]
