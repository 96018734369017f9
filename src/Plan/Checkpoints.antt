-- ===== src/Plan/Checkpoints.antt =====
-- apps/api/src/app.ts: POST /api/jobs/:jobId/checkpoints/:checkpointId/advance, and
-- DELETE /api/runbooks/:runbookId. The table of the dynamic runbooks is a list of their ids and the
-- actors who created them.
pub mod Laws
use mathlib.Core.Option
use wireguard_ops_cockpit.Base.{
  ℕ, String, Bool, true, false, Option, none, some, List, [], ◌∷◌, ◌==◌, ◌!=◌, ◌&&◌, not, any,
  if◌then◌else◌, string_eq, option_eq, nat_eq, map, length, find, filter,
}
use wireguard_ops_cockpit.Base.Actions.{Action, pure, gets, or_return, ◌>>=◌, ◌>>◌}
use wireguard_ops_cockpit.Base.Json.{
  Json, Fields, str, arr, end, of_list, lookup, as_string, fields, spread,
}
use wireguard_ops_cockpit.Base.Text.{joined}
use wireguard_ops_cockpit.Checkpoint.{State, Advanced, parse_state_value, advance_state}
use wireguard_ops_cockpit.Checkpoint.Parsing.{to_json}
use wireguard_ops_cockpit.Plan.{Config, World, Job, Reply, refused, audit, patch_job, touch_session}
use wireguard_ops_cockpit.Registry.{
  Registry, Runbook, Agent, find_agent, unregister_dynamic_runbook,
}
use wireguard_ops_cockpit.Registry.Encoding.{str_or_null}
use wireguard_ops_cockpit.Store.{JobKind, SessionRow}
use wireguard_ops_cockpit.Store.Accounts.{Actor}
use wireguard_ops_cockpit.Store.Jobs.{JobPatch, get_job}
use wireguard_ops_cockpit.Store.Sessions.{get_session_for_actor}

abbrev pub output_of : Job → Fields
output_of job = Option.get_or job.output end

abbrev pub is_agent : JobKind → Bool
is_agent JobKind.agent = true
is_agent _ = false

-- `(job.subjectId ? findAgent(job.subjectId)?.name : null) || "Agent"`
unfoldable pub agent_name : Registry → Option String → String
agent_name reg none = "Agent"
agent_name reg (some id) = elim (if id == "" then none else find_agent reg id) [
  | none ↦ "Agent"
  | some a ↦ if a.name == "" then "Agent" else a.name
]

unfoldable pub checkpoint_summary : String → Advanced → String
checkpoint_summary name advanced =
    elim (find (λ (c : State). some c.id == advanced.active_checkpoint_id) advanced.checkpoints) [
      | some next ↦ joined (name ∷ " is waiting at checkpoint " ∷ next.label ∷ "." ∷ [])
      | none ↦ joined (
          name
          ∷ " completed all structured checkpoints and is waiting for a bounded follow-up or session closeout."
          ∷ [])
    ]

-- The output of the job after the advance.
unfoldable pub advanced_output : String → Fields → String → Advanced → Fields
advanced_output name output checkpoint_id advanced = spread output (
    fields (
      ("summary", str (checkpoint_summary name advanced))
      ∷ ("checkpoints", arr (of_list (map to_json advanced.checkpoints)))
      ∷ ("activeCheckpointId", str_or_null advanced.active_checkpoint_id)
      ∷ ("lastCompletedCheckpointId", str checkpoint_id)
      ∷ ("lastCompletedCheckpointLabel", str advanced.completed_checkpoint_label)
      ∷ []))

abbrev pub advanced_patch : String → Job → String → Advanced → JobPatch Fields
advanced_patch name job checkpoint_id advanced = record {
  status = job.status;
  approval_id = none;
  output = some (advanced_output name (output_of job) checkpoint_id advanced);
  completed_at = some job.completed_at;
}

module _ (config : Config) (now : ℕ) where
  unfoldable pub store_advanced : Actor → Job → SessionRow → String → Advanced → Action World Reply
  store_advanced actor job session checkpoint_id advanced w =
      (do
        updated ←
            patch_job now job.id
              (advanced_patch (agent_name w.registry job.subject_id) job checkpoint_id advanced)
        touch_session now session.id
        audit config now (record {
          actor_id = some actor.id;
          action = "agent.checkpoint.advanced";
          target_type = "job";
          target_id = some job.id;
          details = fields (
              ("jobId", str job.id)
              ∷ ("planId", str_or_null (as_string (lookup "planId" (output_of job))))
              ∷ ("checkpointId", str checkpoint_id)
              ∷ ("completedCheckpointLabel", str advanced.completed_checkpoint_label)
              ∷ ("nextCheckpointId", str_or_null advanced.active_checkpoint_id)
              ∷ (
                "checkpointContractDigest",
                str_or_null (as_string (lookup "checkpointContractDigest" (output_of job))),
              )
              ∷ []);
        })
        pure (record (refused 200 "") { job = some updated }))
        w

  unfoldable pub advance_job_checkpoint : Actor → Job → SessionRow → String → Action World Reply
  advance_job_checkpoint actor job session checkpoint_id =
      let checkpoints = parse_state_value (lookup "checkpoints" (output_of job)) in
      let closed = refused 409 "checkpoint is not awaiting operator review" in
      if not (is_agent job.kind)
      then pure (refused 400 "checkpoint advancement is only available for agent jobs")
      else if length checkpoints == 0
      then pure (refused 400 "job does not expose structured checkpoints")
      else if as_string (lookup "activeCheckpointId" (output_of job)) != some checkpoint_id
      then pure closed
      else or_return closed (advance_state checkpoints checkpoint_id)
          (λ advanced. store_advanced actor job session checkpoint_id advanced)

  unfoldable pub advance_for_actor : Actor → String → Job → Action World Reply
  advance_for_actor actor checkpoint_id job w =
      or_return (refused 404 "job not found") job.session_id
        (λ session_id.
          or_return (refused 404 "job not found") (get_session_for_actor w.db session_id actor.id)
            (λ session. advance_job_checkpoint actor job session checkpoint_id))
        w

  unfoldable pub advance_checkpoint : Actor → String → String → Action World Reply
  advance_checkpoint actor job_id checkpoint_id w =
      or_return (refused 404 "job not found") (get_job w.db job_id)
        (advance_for_actor actor checkpoint_id) w

  -- A row of `dynamic_runbooks`: the runbook, and who created it.
  unfoldable pub delete_dynamic_runbook :
      String → String → List (String × String) → List (String × String) × Bool
  delete_dynamic_runbook id actor_id rows =
      let holds : String × String → Bool = λ row. row.0 == id && row.1 == actor_id in
      (filter (λ row. not (holds row)) rows, any holds rows)

  unfoldable pub delete_runbook :
      Actor → String → List (String × String) → World → List (String × String) × Reply × World
  unfolding delete_dynamic_runbook
  delete_runbook actor id rows w =
      if any (λ (r : Runbook). r.id == id) w.registry.built_in
      then (rows, refused 403 "built-in runbooks cannot be deleted", w)
      else let (left, deleted) = delete_dynamic_runbook id actor.id rows in
        if not deleted then (rows, refused 404 "runbook not found or not authorized", w) else (
          left,
          refused 200 "deleted",
          (audit config now
              (record {
                actor_id = some actor.id;
                action = "runbook.dynamic.deleted";
                target_type = "runbook";
                target_id = some id;
                details = end;
              })
              (record w { registry = unregister_dynamic_runbook w.registry id })).1,
        )
