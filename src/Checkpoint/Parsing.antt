-- ===== src/Checkpoint/Parsing.antt =====
-- app.ts, `parseCheckpointStateValue`: the checkpoints that a job's output holds are read back.
use text.Mathlib.TextEquality.{eq_iff}
use wireguard_ops_cockpit.Base.{
  ◌≡◌, ◌≢◌, refl, String, Option, none, some, List, string_eq, arith, map, filter_map-map, All,
}
use wireguard_ops_cockpit.Base.Json.{
  Json, Fields, str, arr, obj, field, end, of_list, to_list-of_list, lookup,
}
use wireguard_ops_cockpit.Checkpoint.{
  Kind, analysis, operator_checkpoint, runbook, verify, Status, planned, awaiting_operator,
  completed, State, parse_kind, parse_status, parse_runbook_id, parse_state_entry,
  parse_state_value,
}

-- The texts of the two unions.
abbrev pub kind_text : Kind → String
kind_text analysis = "analysis"
kind_text operator_checkpoint = "operator-checkpoint"
kind_text runbook = "runbook"
kind_text verify = "verify"

abbrev pub status_text : Status → String
status_text planned = "planned"
status_text awaiting_operator = "awaiting_operator"
status_text completed = "completed"

abbrev runbook_field : Option String → Fields
runbook_field none = end
runbook_field (some s) = field "runbookId" (str s) end

-- A checkpoint as the object that a job's output holds.
abbrev pub to_json : State → Json
to_json c = obj (
    field "id" (str c.id) (
      field "label" (str c.label) (
        field "description" (str c.description) (
          field "kind" (str (kind_text c.kind))
            (field "status" (str (status_text c.status)) (runbook_field c.runbook_id))))))

-- What a parse returns: a runbook id that is there is not empty.
abbrev pub IsWellFormed : State → Type 0
IsWellFormed c = c.runbook_id ≢ some ""

parse_kind-kind_text : (k : Kind) → parse_kind (kind_text k) ≡ some k
unfolding parse_kind
parse_kind-kind_text analysis = refl
parse_kind-kind_text _ = refl

parse_status-status_text : (s : Status) → parse_status (status_text s) ≡ some s
unfolding parse_status
parse_status-status_text planned = refl
parse_status-status_text _ = refl

parse-runbook_field :
    (r : Option String)
    → r ≢ some ""
    → parse_runbook_id (lookup "runbookId" (runbook_field r)) ≡ some r
unfolding parse_runbook_id
parse-runbook_field none h = refl
parse-runbook_field (some s) h = ground (arith, eq_iff s "")

parse-to_json : (c : State) → IsWellFormed c → parse_state_entry (to_json c) ≡ some c
unfolding parse_state_entry
parse-to_json c h = rw (
  parse_kind-kind_text c.kind,
  parse_status-status_text c.status,
  parse-runbook_field c.runbook_id h,
)

-- A checkpoint list that was stored in a job's output is read back as it was, if no runbook id of
-- it is the empty text.
pub parse_state_value-to_json :
    (cs : List State)
    → All IsWellFormed cs
    → parse_state_value (some (arr (of_list (map to_json cs)))) ≡ cs
unfolding parse_state_value
parse_state_value-to_json cs h =
    rw (to_list-of_list (map to_json cs))
      (filter_map-map parse_state_entry to_json IsWellFormed parse-to_json cs h)
