-- ===== src/Store/Plans.antt =====
-- db.ts: the table of the execution plans.
use mathlib.Core.Option
use wireguard_ops_cockpit.Base.{
  ℕ, ◌≡◌, ◌≢◌, refl, String, Option, none, some, ◌==◌, string_eq, arith, Option-cases, inl, inr,
}
use wireguard_ops_cockpit.Base.Json.{Fields}
use wireguard_ops_cockpit.Base.Options.{◌>>=◌}
use wireguard_ops_cockpit.Base.Tables.{update, insert, by_key, by_key-update_self, by_key-update_ne}
use wireguard_ops_cockpit.Store.{Db, PlanRow, PlanStatus, Review}

abbrev pub plan_id : PlanRow → String
plan_id p = p.id

-- The input of `updateExecutionPlan`: `none` for what is left out; a null is `some none`.
pub record PlanPatch : Type 0 where
  pub status : Option PlanStatus
  pub approval_id : Option (Option String)
  pub executed_job_id : Option (Option String)
  pub plan_summary : Option String
  pub normalized_input : Option Fields
  pub planner_review : Option Review
  pub safety_review : Option Review
  pub policy_review : Option Review
  pub pre_execution_hook : Option Review
  pub runtime_hook : Option Review
  pub post_execution_hook : Option Review

abbrev pub no_patch : PlanPatch
no_patch = record {
  status = none;
  approval_id = none;
  executed_job_id = none;
  plan_summary = none;
  normalized_input = none;
  planner_review = none;
  safety_review = none;
  policy_review = none;
  pre_execution_hook = none;
  runtime_hook = none;
  post_execution_hook = none;
}

abbrev pub patched_plan : PlanPatch → ℕ → PlanRow → PlanRow
patched_plan input now plan = record plan {
  status = Option.get_or input.status plan.status;
  approval_id = Option.get_or input.approval_id plan.approval_id;
  executed_job_id = Option.get_or input.executed_job_id plan.executed_job_id;
  plan_summary = Option.get_or input.plan_summary plan.plan_summary;
  normalized_input = Option.get_or input.normalized_input plan.normalized_input;
  planner_review = Option.get_or input.planner_review plan.planner_review;
  safety_review = Option.get_or input.safety_review plan.safety_review;
  policy_review = Option.get_or input.policy_review plan.policy_review;
  pre_execution_hook = Option.get_or input.pre_execution_hook plan.pre_execution_hook;
  runtime_hook = Option.get_or input.runtime_hook plan.runtime_hook;
  post_execution_hook = Option.get_or input.post_execution_hook plan.post_execution_hook;
  updated_at = now;
}

module _ {O : Type 0} where
  unfoldable pub get_execution_plan : Db O → String → Option PlanRow
  get_execution_plan db id = by_key plan_id id db.plans

  -- The row comes with its id and times: the arguments `id` and `now` of the insert.
  unfoldable pub create_execution_plan : Db O → PlanRow → Db O
  create_execution_plan db plan = record db { plans = insert plan db.plans }

  -- `none` is the error "execution plan not found".
  unfoldable pub update_execution_plan : Db O → String → ℕ → PlanPatch → Option (Db O × PlanRow)
  unfolding get_execution_plan
  update_execution_plan db id now input = do
    current ← get_execution_plan db id
    some (
      record db { plans = update (λ plan. plan.id == id) (patched_plan input now) db.plans },
      patched_plan input now current,
    )

  -- An update of a plan changes the row of that plan and of no other, and no other table.
  pub get_execution_plan-update :
      (db db' : Db O) (id j : String) (now : ℕ) (input : PlanPatch) (plan : PlanRow)
      → update_execution_plan db id now input ≡ some (db', plan)
      → (get_execution_plan db' id ≡ some plan)
        × (j ≢ id → get_execution_plan db' j ≡ get_execution_plan db j)
        × (db' ≡ record db { plans = db'.plans })
  unfolding update_execution_plan
  get_execution_plan-update db db' id j now input plan h =
      let self = by_key-update_self plan_id (patched_plan input now) (λ x. refl) id db.plans in
      let other = by_key-update_ne plan_id (patched_plan input now) (λ x. refl) id j in
      elim (Option-cases (by_key plan_id id db.plans)) [
        | inl missing ↦ absurd (ground arith)
        | inr (current, found) ↦
            (ground arith, λ ne. (let same = other ne db.plans in ground arith), ground arith)
      ]
