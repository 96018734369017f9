-- ===== src/Checkpoint/Tests.antt =====
-- The checkpoints of a contract of two stages.
use wireguard_ops_cockpit.Base.{◌≡◌, refl, suc, none, some, List, [], ◌∷◌, length, map, find}
use wireguard_ops_cockpit.Base.Json.{arr, of_list}
use wireguard_ops_cockpit.Checkpoint.{
  Definition, State, analysis, runbook, awaiting_operator, completed, Advanced, initial_state,
  advance_state, parse_state_value, id_or_null, is_awaiting,
}
use wireguard_ops_cockpit.Checkpoint.Staged.{
  IsStaged, IsFresh, definition_of, completed_count, advance_state-IsStaged, initial_state-IsStaged,
}
use wireguard_ops_cockpit.Checkpoint.Completion.{ids, operate, operate-initial_state}
use wireguard_ops_cockpit.Checkpoint.Parsing.{to_json, parse_state_value-to_json}

abbrev contract : List Definition
contract =
    record {
      id = "inspect";
      label = "Inspect";
      description = "Look";
      kind = analysis;
      runbook_id = none;
    }
    ∷ record {
      id = "fix";
      label = "Fix";
      description = "Run";
      kind = runbook;
      runbook_id = some "disk";
    }
    ∷ []

abbrev fixed : List State
fixed =
    record {
      id = "inspect";
      label = "Inspect";
      description = "Look";
      kind = analysis;
      status = completed;
      runbook_id = none;
    }
    ∷ record {
      id = "fix";
      label = "Fix";
      description = "Run";
      kind = runbook;
      status = awaiting_operator;
      runbook_id = some "disk";
    }
    ∷ []

abbrev after_first : Advanced
after_first = record {
  checkpoints = fixed;
  active_checkpoint_id = some "fix";
  completed_checkpoint_label = "Inspect";
}

advance_first : advance_state (initial_state contract).0 "inspect" ≡ some after_first
unfolding advance_state initial_state
advance_first = refl

-- A checkpoint that does not await the operator is refused.
advance_planned : advance_state (initial_state contract).0 "fix" ≡ none
unfolding advance_state initial_state
advance_planned = refl

initial_state-IsStaged_example :
    (map definition_of (initial_state contract).0 ≡ contract)
    × IsFresh (initial_state contract).0
    × IsStaged (initial_state contract).0
    × ((initial_state contract).1
        ≡ id_or_null (find (λ c. is_awaiting c.status) (initial_state contract).0))
initial_state-IsStaged_example = initial_state-IsStaged contract

advance_state-IsStaged_example :
    IsStaged fixed
    × (completed_count fixed ≡ suc (completed_count (initial_state contract).0))
    × (length fixed ≡ length (initial_state contract).0)
advance_state-IsStaged_example =
    advance_state-IsStaged (initial_state contract).0 "inspect" after_first
      (initial_state-IsStaged contract).2 advance_first

operate-initial_state_example :
    (cs : List State) × (operate 2 (initial_state contract).0 ≡ some cs)
    × (completed_count cs ≡ 2)
    × (ids cs ≡ "inspect" ∷ "fix" ∷ [])
operate-initial_state_example =
    operate-initial_state contract (((λ e. cc), tt), (tt, tt)) ((λ e. cc), ((λ e. cc), tt))

parse_state_value-to_json_example :
    parse_state_value (some (arr (of_list (map to_json fixed)))) ≡ fixed
parse_state_value-to_json_example = parse_state_value-to_json fixed ((λ e. cc), ((λ e. cc), tt))
