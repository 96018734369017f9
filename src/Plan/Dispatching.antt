-- ===== src/Plan/Dispatching.antt =====
-- apps/api/src/app.ts: what the dispatch of a plan starts: one command at most, in the plan's session.
use mathlib.Core.Path.{subst}
use wireguard_ops_cockpit.Base.{
  ℕ, ◌≡◌, refl, sym, ap, ◌∙◌, String, Bool, true, false, Option, some, List, [], ◌∷◌, ◌++◌,
  if◌then◌else◌, Option-cases, Bool-cases, arith, ◌⊎◌, inl, inr,
}
use wireguard_ops_cockpit.Base.Actions.{
  Result, done, thrown, Action, throw, or_throw, found_or, ◌>>=◌, Keeps, Keeps->>=, Result-shape,
  bound,
}
use wireguard_ops_cockpit.Plan.{Config, World, Launch, noted, launch}
use wireguard_ops_cockpit.Plan.Executing.{
  execute_runbook_plan, execute_agent_plan, session_of_plan, of_result, agent_window, log_file,
  prompt_of,
}
use wireguard_ops_cockpit.Registry.{Runbook, Agent}
use wireguard_ops_cockpit.Registry.Dispatch.{
  CommandSpec, LaunchResult, build_runbook_dispatch, launch_command,
}
use wireguard_ops_cockpit.Store.{PlanRow, SessionRow}
use wireguard_ops_cockpit.Store.Accounts.{Actor}
use wireguard_ops_cockpit.Plan.Inner.{
  IsInner, if-IsInner, bind-IsInner, pure-IsInner, revive_session-IsInner, record_runbook-IsInner,
  record_agent-IsInner,
}

-- Nothing was started, or one command in the session of that name.
unfoldable pub StartsIn : String → List Launch → List Launch → Type 0
StartsIn name before after =
    (after ≡ before)
    ⊎ ((window : String) × (command : CommandSpec) × (after
          ≡ before ++ record { session = name; window = window; command = command } ∷ []))

-- A launch, and then calls that start nothing, start at most one command.
launch-StartsIn :
    {A : Type 0} (config : Config) (session window : String) (command : CommandSpec)
    (k : LaunchResult → Action World A)
    → ((result : LaunchResult) → IsInner (k result))
    → (w : World)
    → StartsIn session w.launched ((launch config session window command >>= k) w).1.launched
unfolding launch IsInner StartsIn
launch-StartsIn config session window command k inner w =
    let l : Launch = record { session = session; window = window; command = command } in
    elim (Result-shape (launch_command config.backend config.run_tmux session window command)) [
      | inl (result, e) ↦
          let after = if result.started then w.launched ++ l ∷ [] else w.launched in
          let kept =
            ap (λ r. (bound k (noted l w r)).1.launched) e
            ∙ ap (λ p. p.0) (inner result (record w { launched = after })) in
          elim (Bool-cases result.started) [
            | inl started ↦ inr (window, command, kept ∙ ground arith)
            | inr idle ↦ inl (kept ∙ ground arith)
          ]
      | inr (message, e) ↦ inl (ap (λ r. (bound k (noted l w r)).1.launched) e)
    ]

-- The same, where what is launched is computed first and may throw.
of_result-StartsIn :
    {A B : Type 0} (session : String) (r : Result A) (k : A → Action World B) (w : World)
    → ((a : A) → StartsIn session w.launched (k a w).1.launched)
    → StartsIn session w.launched ((of_result r >>= k) w).1.launched
unfolding StartsIn
of_result-StartsIn session (done a) k w h = h a
of_result-StartsIn session (thrown message) k w h = inl refl

-- A plan starts a command in the session that it names, of who asked for the plan; and nothing if
-- that session is not there.
abbrev pub DispatchesIn : PlanRow → World → List Launch → Type 0
DispatchesIn plan w after =
    (after ≡ w.launched)
    ⊎ ((session : SessionRow) × (session_of_plan plan w ≡ some session)
        × StartsIn session.tmux_session_name w.launched after)

session_of_plan-DispatchesIn :
    {B : Type 0} (plan : PlanRow) (message : String) (k : SessionRow → Action World B) (w : World)
    → ((session : SessionRow)
        → StartsIn session.tmux_session_name w.launched (k session w).1.launched)
    → DispatchesIn plan w ((or_throw message (session_of_plan plan) >>= k) w).1.launched
session_of_plan-DispatchesIn plan message k w h = elim (Option-cases (session_of_plan plan w)) [
  | inl missing ↦ inl (ap (λ o. (bound k (found_or message o, w)).1.launched) missing)
  | inr (session, found) ↦ inr (
    session,
    found,
    subst
        (λ o.
          StartsIn session.tmux_session_name w.launched
            (bound k (found_or message o, w)).1.launched)
        (sym found) (h session),
  )
]

if-DispatchesIn :
    {A : Type 0} (b : Bool) (plan : PlanRow) (w : World) (m n : Action World A)
    → DispatchesIn plan w (m w).1.launched
    → DispatchesIn plan w (n w).1.launched
    → DispatchesIn plan w ((if b then m else n) w).1.launched
if-DispatchesIn true plan w m n hm hn = hm
if-DispatchesIn false plan w m n hm hn = hn

module _ (config : Config) (now : ℕ) (plan : PlanRow) (actor : Actor) (w : World) where
  pub execute_runbook_plan-DispatchesIn :
      (runbook : Runbook)
      → DispatchesIn plan w (execute_runbook_plan config now plan actor runbook w).1.launched
  unfolding execute_runbook_plan
  execute_runbook_plan-DispatchesIn runbook = session_of_plan-DispatchesIn plan _ _ w (λ session.
      of_result-StartsIn _ (build_runbook_dispatch config.resolve config.repo_root runbook) _ w
        (λ dispatch.
          launch-StartsIn config _ _ _ _
            (λ result.
              bind-IsInner _ _
                (if-IsInner result.started _ _ (revive_session-IsInner now session.id)
                  (pure-IsInner tt))
                (λ t. record_runbook-IsInner config now plan actor runbook session dispatch result))
            w))

  pub execute_agent_plan-DispatchesIn :
      (agent : Agent) (suffix : String)
      → DispatchesIn plan w (execute_agent_plan config now plan actor agent suffix w).1.launched
  unfolding execute_agent_plan
  execute_agent_plan-DispatchesIn agent suffix =
      if-DispatchesIn config.agent_broker plan w _ _ (inl refl) (
        session_of_plan-DispatchesIn plan _ _ w (λ session.
          launch-StartsIn config _ _ _ _
            (λ result.
              bind-IsInner _ _
                (if-IsInner result.started _ _ (revive_session-IsInner now session.id)
                  (pure-IsInner tt))
                (λ t. record_agent-IsInner config now plan actor agent session _ result))
            w))

-- The call leaves the approvals as they were.
unfoldable pub KeepsApprovals : {A : Type 0} → Action World A → Type 0
KeepsApprovals m = Keeps (λ w. w.db.approvals) m

pub bind-KeepsApprovals :
    {A B : Type 0} (m : Action World A) (k : A → Action World B)
    → KeepsApprovals m
    → ((a : A) → KeepsApprovals (k a))
    → KeepsApprovals (m >>= k)
unfolding KeepsApprovals
bind-KeepsApprovals m k hm hk = Keeps->>= (λ w. w.db.approvals) m k hm hk

pub IsInner-KeepsApprovals : {A : Type 0} (m : Action World A) → IsInner m → KeepsApprovals m
unfolding IsInner KeepsApprovals
IsInner-KeepsApprovals m inner w = ap (λ o. o.2) (inner w)

launch-KeepsApprovals :
    (config : Config) (session window : String) (command : CommandSpec)
    → KeepsApprovals (launch config session window command)
unfolding launch KeepsApprovals
launch-KeepsApprovals config session window command w =
    let l : Launch = record { session = session; window = window; command = command } in
    elim (Result-shape (launch_command config.backend config.run_tmux session window command)) [
      | inl (result, e) ↦ ap (λ r. (noted l w r).1.db.approvals) e
      | inr (message, e) ↦ ap (λ r. (noted l w r).1.db.approvals) e
    ]

of_result-KeepsApprovals : {A : Type 0} (r : Result A) → KeepsApprovals (of_result r)
unfolding KeepsApprovals
of_result-KeepsApprovals (done a) w = refl
of_result-KeepsApprovals (thrown message) w = refl

or_throw-KeepsApprovals :
    {A : Type 0} (message : String) (f : World → Option A) → KeepsApprovals (or_throw message f)
unfolding KeepsApprovals
or_throw-KeepsApprovals message f w = refl

if-KeepsApprovals :
    {A : Type 0} (b : Bool) (message : String) (m : Action World A)
    → KeepsApprovals m
    → KeepsApprovals (if b then throw message else m)
unfolding KeepsApprovals
if-KeepsApprovals true message m h w = refl
if-KeepsApprovals false message m h w = h w

module _ (config : Config) (now : ℕ) (plan : PlanRow) (actor : Actor) where
  pub execute_runbook_plan-KeepsApprovals :
      (runbook : Runbook) → KeepsApprovals (execute_runbook_plan config now plan actor runbook)
  unfolding execute_runbook_plan
  execute_runbook_plan-KeepsApprovals runbook =
      bind-KeepsApprovals _ _
        (or_throw-KeepsApprovals "session not found for runbook plan" (session_of_plan plan))
        (λ session.
          bind-KeepsApprovals _ _
            (of_result-KeepsApprovals
              (build_runbook_dispatch config.resolve config.repo_root runbook))
            (λ dispatch.
              bind-KeepsApprovals _ _
                (launch-KeepsApprovals config session.tmux_session_name dispatch.window_name
                  dispatch.command)
                (λ result. IsInner-KeepsApprovals _ (
                  bind-IsInner _ _
                    (if-IsInner result.started _ _ (revive_session-IsInner now session.id)
                      (pure-IsInner tt))
                    (λ t.
                      record_runbook-IsInner config now plan actor runbook session dispatch
                        result)))))

  pub execute_agent_plan-KeepsApprovals :
      (agent : Agent) (suffix : String)
      → KeepsApprovals (execute_agent_plan config now plan actor agent suffix)
  unfolding execute_agent_plan
  execute_agent_plan-KeepsApprovals agent suffix = if-KeepsApprovals config.agent_broker _ _ (
      bind-KeepsApprovals _ _
        (or_throw-KeepsApprovals "session not found for agent plan" (session_of_plan plan))
        (λ session.
          bind-KeepsApprovals _ _
            (launch-KeepsApprovals config session.tmux_session_name (agent_window agent suffix)
              (config.agent_command agent (prompt_of plan) (log_file session agent suffix)))
            (λ result. IsInner-KeepsApprovals _ (
              bind-IsInner _ _
                (if-IsInner result.started _ _ (revive_session-IsInner now session.id)
                  (pure-IsInner tt))
                (λ t. record_agent-IsInner config now plan actor agent session _ result)))))
