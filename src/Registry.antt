-- ===== src/Registry.antt =====
-- packages/domain/src/index.ts and apps/api/src/registries.ts: runbooks, scripts and agents, how they
-- are found, the digests of their definitions, and the command that a runbook is dispatched with. The
-- child modules Scripts and Runbooks hold the built-in tables.
pub mod Scripts
pub mod Runbooks
pub mod Encoding
pub mod Dispatch
pub mod Laws
mod Tests
use mathlib.Core.Option
use wireguard_ops_cockpit.Base.{
  String, Bool, true, false, Option, none, some, List, [], ◌∷◌, ◌==◌, string_eq, find, filter_map,
  if◌then◌else◌,
}
use wireguard_ops_cockpit.Base.Text.{joined}
use wireguard_ops_cockpit.Checkpoint.{Definition}

pub data StepKind : Type 0 where
  runbook agent approval verify operator_checkpoint : StepKind

pub record WorkflowStep : Type 0 where
  pub id : String
  pub label : String
  pub description : String
  pub kind : StepKind
  pub runbook_id : Option String
  pub agent_id : Option String
  pub approval_hint : Option String

pub data Integration : Type 0 where
  placeholder host_tmux demo_local control_plane copilot_cli opencode : Integration

pub record Runbook : Type 0 where
  pub id : String
  pub name : String
  pub summary : String
  pub requires_session : Bool
  pub requires_approval : Bool
  pub integration : Integration
  pub privileged_helper_requested : Bool
  pub script_ids : List String
  pub workflow_steps : List WorkflowStep

pub record Script : Type 0 where
  pub id : String
  pub name : String
  pub summary : String
  pub privileged_helper_requested : Bool
  pub source_path : String

pub data Supervision : Type 0 where
  unsupervised session_observed : Supervision

pub record Agent : Type 0 where
  pub id : String
  pub name : String
  pub description : String
  pub requires_approval : Bool
  pub privileged_helper_requested : Bool
  pub integration : Integration
  pub supervision_mode : Supervision
  pub prompt_contract_id : String
  pub checkpoint_contract_id : Option String
  pub checkpoint_template : List Definition

-- `DYNAMIC_RUNBOOKS`, a map in the order of insertion, and the built-in tables.
pub record Registry : Type 0 where
  pub dynamic : List Runbook
  pub built_in : List Runbook
  pub scripts : List Script
  pub agents : List Agent

-- A row of `listDynamicRunbooks`.
pub record DynamicRow : Type 0 where
  pub id : String
  pub name : String
  pub summary : String
  pub requires_approval : Bool
  pub script_id : String

-- `Map.set`
abbrev pub set_runbook : Runbook → List Runbook → List Runbook
set_runbook r [] = r ∷ []
set_runbook r (x ∷ xs) = let rest = set_runbook r xs in if x.id == r.id then r ∷ xs else x ∷ rest

-- `Map.delete`
abbrev pub remove_runbook : String → List Runbook → List Runbook
remove_runbook id [] = []
remove_runbook id (x ∷ xs) = let rest = remove_runbook id xs in if x.id == id then xs else x ∷ rest

unfoldable pub register_dynamic_runbook : Registry → Runbook → Registry
register_dynamic_runbook reg r = record reg { dynamic = set_runbook r reg.dynamic }

unfoldable pub unregister_dynamic_runbook : Registry → String → Registry
unregister_dynamic_runbook reg id = record reg { dynamic = remove_runbook id reg.dynamic }

abbrev pub loaded_runbook : DynamicRow → Runbook
loaded_runbook r = record {
  id = r.id;
  name = r.name;
  summary = r.summary;
  requires_session = true;
  requires_approval = r.requires_approval;
  integration = host_tmux;
  privileged_helper_requested = false;
  script_ids = r.script_id ∷ [];
  workflow_steps =
      record {
        id = "run-script";
        label = joined ("Run " ∷ r.script_id ∷ []);
        description = r.summary;
        kind = StepKind.runbook;
        runbook_id = none;
        agent_id = none;
        approval_hint = none;
      }
      ∷ [];
}

unfoldable pub load_dynamic_runbooks : Registry → List DynamicRow → Registry
unfolding register_dynamic_runbook
load_dynamic_runbooks reg [] = reg
load_dynamic_runbooks reg (r ∷ rows) =
    load_dynamic_runbooks (register_dynamic_runbook reg (loaded_runbook r)) rows

unfoldable pub find_runbook : Registry → String → Option Runbook
find_runbook reg id = elim (find (λ (r : Runbook). r.id == id) reg.dynamic) [
  | some r ↦ some r
  | none ↦ find (λ (r : Runbook). r.id == id) reg.built_in
]

unfoldable pub find_script : Registry → String → Option Script
find_script reg id = find (λ (s : Script). s.id == id) reg.scripts

unfoldable pub find_agent : Registry → String → Option Agent
find_agent reg id = find (λ (a : Agent). a.id == id) reg.agents
