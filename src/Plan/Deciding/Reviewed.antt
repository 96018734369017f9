-- ===== src/Plan/Deciding/Reviewed.antt =====
-- apps/api/src/app.ts: an approved plan is dispatched only as it was reviewed.
use mathlib.Core.Path.{subst}
use text.Mathlib.TextEquality.{eq_iff}
use wireguard_ops_cockpit.Base.{
  ℕ, ◌≡◌, refl, sym, ap, ◌∙◌, String, false, Option, none, some, List, ◌==◌, ◌!=◌, ◌||◌, if-cases,
  string_eq, option_eq, arith, ◌⊎◌, inl, inr,
}
use wireguard_ops_cockpit.Base.Actions.{
  Result, done, thrown, Action, ◌>>=◌, Result-cases, bound, or_return-cases,
}
use wireguard_ops_cockpit.Base.Options.{◌>>=◌ as ◌>>=o◌}
use wireguard_ops_cockpit.Base.Tables.{update}
use wireguard_ops_cockpit.Base.Json.{Json, fields}
use wireguard_ops_cockpit.Plan.{Config, World, Launch, Job, Reply, patch_plan, input_text, stored}
use wireguard_ops_cockpit.Plan.Reviewing.{recompute_plan_hash}
use wireguard_ops_cockpit.Plan.Executing.{session_of_plan}
use wireguard_ops_cockpit.Plan.Inner.{IsInner, after-IsInner, patch_plan-IsInner}
use wireguard_ops_cockpit.Plan.Dispatching.{
  DispatchesIn, StartsIn, execute_runbook_plan-DispatchesIn, execute_agent_plan-DispatchesIn,
}
use wireguard_ops_cockpit.Plan.Approving.{
  Mismatch, block_plan, dispatch_plan, approved_patch, finish_plan, approve_runbook, approve_agent,
  approve_target, dispatch_reviewed, approve_plan,
}
use wireguard_ops_cockpit.Registry.{Registry, Runbook, Agent, find_runbook, find_agent}
use wireguard_ops_cockpit.Registry.Encoding.{
  compute_runbook_version_hash, compute_agent_manifest_digest,
}
use wireguard_ops_cockpit.Store.{PlanRow, PlanTarget, runbook, agent, SessionRow, ApprovalRow}
use wireguard_ops_cockpit.Store.Accounts.{Actor}
use wireguard_ops_cockpit.Store.Audits.{text_or_empty}
use wireguard_ops_cockpit.Store.Sessions.{get_session_for_actor}
use wireguard_ops_cockpit.Store.Plans.{
  PlanPatch, patched_plan, update_execution_plan, get_execution_plan,
}
use wireguard_ops_cockpit.Plan.Deciding.Inner.{block_plan-IsInner, finish_plan-IsInner}

abbrev session_after : Result PlanRow × World → Option SessionRow
session_after (done p, w) = session_of_plan p w
session_after (thrown message, w) = none

-- The plan that a patch returns names the session that the stored one named, in the same sessions.
patch_plan-session :
    (now : ℕ) (input : PlanPatch) (plan p : PlanRow) (w w' : World)
    → get_execution_plan w.db plan.id ≡ some plan
    → patch_plan now plan.id input w ≡ (done p, w')
    → session_of_plan p w' ≡ session_of_plan plan w
unfolding patch_plan update_execution_plan session_of_plan get_session_for_actor
patch_plan-session now input plan p w w' found e =
    ap session_after (sym e)
    ∙ ap
        (λ o. session_after (
          stored "execution plan not found" w (
            o >>=o λ current. some (
              record w.db {
                plans =
                    update (λ (x : PlanRow). x.id == plan.id) (patched_plan input now) w.db.plans;
              },
              patched_plan input now current,
            ))))
        found

DispatchesIn-move :
    (plan p : PlanRow) (w s : World) (after after' : List Launch)
    → s.launched ≡ w.launched
    → session_of_plan p s ≡ session_of_plan plan w
    → after' ≡ after
    → DispatchesIn p s after
    → DispatchesIn plan w after'
DispatchesIn-move plan p w s after after' same session_same e (inl idle) = inl (e ∙ idle ∙ same)
DispatchesIn-move plan p w s after after' same session_same e (inr (session, found, starts)) = inr (
  session,
  sym session_same ∙ found,
  subst (λ l. StartsIn session.tmux_session_name l after') same
      (subst (StartsIn session.tmux_session_name s.launched) (sym e) starts),
)

agreed :
    (reviewed : Option String) (current : String)
    → (text_or_empty reviewed == "" || reviewed != some current) ≡ false
    → reviewed ≡ some current
agreed none current h = absurd (ground arith)
agreed (some text) current h = ap some (ground (arith, eq_iff text current))

-- The stored target of a plan is the one that was reviewed: its digest is the one that the plan holds.
abbrev pub IsReviewedAs : Config → Registry → PlanRow → PlanTarget → Type 0
IsReviewedAs config reg plan runbook =
    (found : Runbook) × (find_runbook reg plan.target_id ≡ some found)
    × (input_text "runbookVersionHash" plan
        ≡ some (compute_runbook_version_hash config.digest reg found))
IsReviewedAs config reg plan agent =
    (found : Agent) × (find_agent reg plan.target_id ≡ some found)
    × (input_text "agentManifestDigest" plan
        ≡ some (compute_agent_manifest_digest config.digest found))

-- Nothing was started; or the plan has the hash that it was approved with, its target is the reviewed
-- one, and one command was started in its session.
abbrev pub StartsReviewed : Config → PlanRow → World → List Launch → Type 0
StartsReviewed config plan w after =
    (after ≡ w.launched)
    ⊎ ((recompute_plan_hash config plan ≡ plan.plan_hash)
        × IsReviewedAs config w.registry plan plan.target_type
        × (session : SessionRow) × (session_of_plan plan w ≡ some session)
        × StartsIn session.tmux_session_name w.launched after)

module _ (config : Config) (now : ℕ) (plan : PlanRow) (job : Job) (approval : ApprovalRow)
    (w : World) (present : get_execution_plan w.db plan.id ≡ some plan) where
  dispatch_plan-DispatchesIn :
      (summary : String) (execute : PlanRow → Action World (PlanRow × Job))
      → ((p : PlanRow) (s : World) → DispatchesIn p s (execute p s).1.launched)
      → DispatchesIn plan w
          (dispatch_plan config now plan job approval summary execute w).1.launched
  unfolding dispatch_plan IsInner
  dispatch_plan-DispatchesIn summary execute h =
      let patch = patch_plan now plan.id (approved_patch plan approval) in
      let inner = patch_plan-IsInner now plan.id (approved_patch plan approval) w in
      let finish = finish_plan config now job approval summary in
      let rest : PlanRow → Action World Reply = λ p. execute p >>= finish in
      elim (Result-cases (patch w)) [
        | inl (p, s, e) ↦
            DispatchesIn-move plan p w s (execute p s).1.launched _
              (ap (λ q. q.1.launched) (sym e) ∙ ap (λ o. o.0) inner)
              (patch_plan-session now _ plan p w s present e)
              (ap (λ q. (bound rest q).1.launched) e
                ∙ ap (λ o. o.0)
                    (after-IsInner (execute p) finish s
                      (finish_plan-IsInner config now job approval summary)))
              (h p s)
        | inr (message, s, e) ↦ inl (
            ap (λ q. (bound rest q).1.launched) e
            ∙ ap (λ q. q.1.launched) (sym e)
            ∙ ap (λ o. o.0) inner)
      ]

  DispatchesIn-StartsReviewed :
      {X : Type 0} (after : List Launch)
      → recompute_plan_hash config plan ≡ plan.plan_hash
      → (X → IsReviewedAs config w.registry plan plan.target_type)
      → (after ≡ w.launched) ⊎ (X × DispatchesIn plan w after)
      → StartsReviewed config plan w after
  DispatchesIn-StartsReviewed after hash reviewed (inl idle) = inl idle
  DispatchesIn-StartsReviewed after hash reviewed (inr (x, inl idle)) = inl idle
  DispatchesIn-StartsReviewed after hash reviewed (inr (x, inr (session, found, starts))) =
      inr (hash, reviewed x, session, found, starts)

  -- If the reviewed digest is the current one, a dispatch is of the reviewed target.
  dispatch_reviewed-DispatchesIn :
      (reviewed : Option String) (current : String) (hashes : List (String × Json))
      (mismatch : Mismatch) (summary : String) (execute : PlanRow → Action World (PlanRow × Job))
      → ((p : PlanRow) (s : World) → DispatchesIn p s (execute p s).1.launched)
      → ((dispatch_reviewed config now plan job approval reviewed current hashes mismatch summary
            execute w).1.launched
          ≡ w.launched)
        ⊎ ((reviewed ≡ some current)
            × DispatchesIn plan w
                (dispatch_reviewed config now plan job approval reviewed current hashes mismatch
                  summary execute w).1.launched)
  unfolding dispatch_reviewed IsInner
  dispatch_reviewed-DispatchesIn reviewed current hashes mismatch summary execute h =
      if-cases
        (λ (m : Action World Reply).
          ((m w).1.launched ≡ w.launched)
          ⊎ ((reviewed ≡ some current) × DispatchesIn plan w (m w).1.launched))
        (text_or_empty reviewed == "" || reviewed != some current)
        (block_plan config now plan job approval mismatch (fields hashes) (fields hashes))
        (dispatch_plan config now plan job approval summary execute)
        (λ differs.
          inl (ap (λ o. o.0) (block_plan-IsInner config now plan job approval mismatch _ _ w)))
        (λ agrees.
          inr (agreed reviewed current agrees, dispatch_plan-DispatchesIn summary execute h))

  approve_target-StartsReviewed :
      (actor : Actor)
      → recompute_plan_hash config plan ≡ plan.plan_hash
      → StartsReviewed config plan w
          (approve_target config now plan.target_type plan job approval actor w).1.launched
  unfolding approve_target approve_runbook approve_agent
  approve_target-StartsReviewed actor hash =
      elim plan.target_type
          as (λ t.
            (IsReviewedAs config w.registry plan t
              → IsReviewedAs config w.registry plan plan.target_type)
            → StartsReviewed config plan w
                (approve_target config now t plan job approval actor w).1.launched) [
                  | runbook ↦ λ as_target.
                      or_return-cases (λ m. StartsReviewed config plan w (m w).1.launched) _
                        (find_runbook w.registry plan.target_id) _ (λ missing. inl refl)
                        (λ found e.
                          DispatchesIn-StartsReviewed _ hash (λ same. as_target (found, e, same))
                            (dispatch_reviewed-DispatchesIn _ _ _ _ _ _ (λ p s.
                              execute_runbook_plan-DispatchesIn config now p actor s found)))
                  | agent ↦ λ as_target.
                      or_return-cases (λ m. StartsReviewed config plan w (m w).1.launched) _
                        (find_agent w.registry plan.target_id) _ (λ missing. inl refl)
                        (λ found e.
                          DispatchesIn-StartsReviewed _ hash (λ same. as_target (found, e, same))
                            (dispatch_reviewed-DispatchesIn _ _ _ _ _ _ (λ p s.
                              execute_agent_plan-DispatchesIn config now p actor s found "")))
                ]
        (λ reviewed. reviewed)

  pub approve_plan-StartsReviewed :
      (actor : Actor)
      → StartsReviewed config plan w (approve_plan config now plan job approval actor w).1.launched
  unfolding approve_plan IsInner
  approve_plan-StartsReviewed actor =
      if-cases (λ (m : Action World Reply). StartsReviewed config plan w (m w).1.launched)
        (recompute_plan_hash config plan != plan.plan_hash) _
        (approve_target config now plan.target_type plan job approval actor)
        (λ differs. inl (ap (λ o. o.0) (block_plan-IsInner config now plan job approval _ _ _ w)))
        (λ same.
          approve_target-StartsReviewed actor
            (ground (arith, eq_iff (recompute_plan_hash config plan) plan.plan_hash)))
