-- ===== src/Checkpoint.antt =====
-- apps/api/src/app.ts and packages/domain/src/index.ts: the staged checkpoints of a supervised
-- agent, as they are parsed from a job's output and advanced by the operator.
pub mod Staged
pub mod Completion
pub mod Parsing
mod Tests
use wireguard_ops_cockpit.Base.{
  ℕ, ◌+◌, String, Bool, true, false, Option, none, some, List, [], ◌∷◌, ◌==◌, ◌&&◌, ◌||◌, not, map,
  if◌then◌else◌, string_eq, nat_eq, get_elem?, find, find_index, map_index, filter_map,
}
use wireguard_ops_cockpit.Base.Json.{Json, Fields, str, lookup, as_string, as_object, as_array}
use wireguard_ops_cockpit.Base.Options.{◌>>=◌, ◌>>◌, guard}

pub data Kind : Type 0 where
  analysis operator_checkpoint runbook verify : Kind

pub data Status : Type 0 where
  planned awaiting_operator completed : Status

pub record Definition : Type 0 where
  pub id : String
  pub label : String
  pub description : String
  pub kind : Kind
  pub runbook_id : Option String

pub record State : Type 0 where
  pub id : String
  pub label : String
  pub description : String
  pub kind : Kind
  pub status : Status
  pub runbook_id : Option String

abbrev pub is_planned : Status → Bool
is_planned planned = true
is_planned _ = false

abbrev pub is_awaiting : Status → Bool
is_awaiting awaiting_operator = true
is_awaiting _ = false

unfoldable pub parse_kind : String → Option Kind
parse_kind s =
    if s == "analysis"
    then some analysis
    else if s == "operator-checkpoint"
    then some operator_checkpoint
    else if s == "runbook"
    then some runbook
    else if s == "verify"
    then some verify
    else none

unfoldable pub parse_status : String → Option Status
parse_status s =
    if s == "planned"
    then some planned
    else if s == "awaiting_operator"
    then some awaiting_operator
    else if s == "completed"
    then some completed
    else none

-- `candidate.runbookId`: refused if it is there and no text, left out if it is empty.
unfoldable pub parse_runbook_id : Option Json → Option (Option String)
parse_runbook_id none = some none
parse_runbook_id (some (str s)) = some (if s == "" then none else some s)
parse_runbook_id _ = none

unfoldable pub parse_contract_entry : Json → Option Definition
unfolding parse_kind parse_runbook_id
parse_contract_entry entry = do
  candidate ← as_object entry
  id ← as_string (lookup "id" candidate)
  label ← as_string (lookup "label" candidate)
  description ← as_string (lookup "description" candidate)
  kind_text ← as_string (lookup "kind" candidate)
  kind ← parse_kind kind_text
  runbook_id ← parse_runbook_id (lookup "runbookId" candidate)
  some (record {
    id = id;
    label = label;
    description = description;
    kind = kind;
    runbook_id = runbook_id;
  })

unfoldable pub parse_contract_value : Option Json → List Definition
unfolding parse_contract_entry
parse_contract_value value = elim (as_array value) [
  | none ↦ []
  | some entries ↦ filter_map parse_contract_entry entries
]

unfoldable pub parse_state_entry : Json → Option State
unfolding parse_kind parse_status parse_runbook_id
parse_state_entry entry = do
  candidate ← as_object entry
  id ← as_string (lookup "id" candidate)
  label ← as_string (lookup "label" candidate)
  description ← as_string (lookup "description" candidate)
  kind_text ← as_string (lookup "kind" candidate)
  status_text ← as_string (lookup "status" candidate)
  kind ← parse_kind kind_text
  status ← parse_status status_text
  runbook_id ← parse_runbook_id (lookup "runbookId" candidate)
  some (record {
    id = id;
    label = label;
    description = description;
    kind = kind;
    status = status;
    runbook_id = runbook_id;
  })

unfoldable pub parse_state_value : Option Json → List State
unfolding parse_state_entry
parse_state_value value = elim (as_array value) [
  | none ↦ []
  | some entries ↦ filter_map parse_state_entry entries
]

-- `found?.id || null`
abbrev pub id_or_null : Option State → Option String
id_or_null none = none
id_or_null (some c) = if c.id == "" then none else some c.id

abbrev pub start : ℕ → Definition → State
start index d = record {
  id = d.id;
  label = d.label;
  description = d.description;
  kind = d.kind;
  status = if index == 0 then awaiting_operator else planned;
  runbook_id = d.runbook_id;
}

-- `createInitialCheckpointState`
unfoldable pub initial_state : List Definition → List State × Option String
initial_state contract =
    let checkpoints = map_index start contract in
    (checkpoints, id_or_null (get_elem? checkpoints 0))

pub record Advanced : Type 0 where
  pub checkpoints : List State
  pub active_checkpoint_id : Option String
  pub completed_checkpoint_label : String

-- What the `map` of `advanceCheckpointState` makes of the checkpoint at `index`.
abbrev pub advance_one : ℕ → ℕ → State → State
advance_one current index c =
    if index == current
    then record c { status = completed }
    else if index == current + 1 && is_planned c.status
    then record c { status = awaiting_operator }
    else c

abbrev pub active_id : List State → Option String
active_id checkpoints = id_or_null (find (λ c. is_awaiting c.status) checkpoints)

unfoldable pub advance_state : List State → String → Option Advanced
advance_state checkpoints checkpoint_id = do
  current ← find_index (λ c. c.id == checkpoint_id) checkpoints
  checkpoint ← get_elem? checkpoints current
  guard (is_awaiting checkpoint.status)
  let updated = map_index (advance_one current) checkpoints
  some (record {
    checkpoints = updated;
    active_checkpoint_id = active_id updated;
    completed_checkpoint_label = checkpoint.label;
  })
