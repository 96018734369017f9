-- ===== src/Registry/Laws.antt =====
-- apps/api/src/registries.ts: the registry as a function from ids to runbooks.
use text.Mathlib.TextEquality.{eq_iff}
use wireguard_ops_cockpit.Base.{
  ◌≡◌, String, some, List, [], ◌∷◌, ◌==◌, string_eq, find, arith, if◌then◌else◌, Bool-cases, inl,
  inr,
}
use wireguard_ops_cockpit.Registry.{
  Runbook, Registry, set_runbook, find_runbook, register_dynamic_runbook,
}

find-set_runbook :
    (r : Runbook) (id : String) (rows : List Runbook)
    → find (λ (x : Runbook). x.id == id) (set_runbook r rows)
      ≡ (if r.id == id then some r else find (λ (x : Runbook). x.id == id) rows)
find-set_runbook r id [] = ground arith
find-set_runbook r id (x ∷ rows) =
    ground (arith, eq_iff x.id r.id, eq_iff x.id id, eq_iff r.id id, find-set_runbook r id rows)

-- Registering a runbook updates the function from ids to runbooks at its id, also where a built-in or
-- an earlier one has that id, and nowhere else.
pub find_runbook-register_dynamic_runbook :
    (reg : Registry) (r : Runbook) (id : String)
    → find_runbook (register_dynamic_runbook reg r) id
      ≡ (if r.id == id then some r else find_runbook reg id)
unfolding find_runbook register_dynamic_runbook
find_runbook-register_dynamic_runbook reg r id = elim (Bool-cases (r.id == id)) [
  | inl h ↦ ground (arith, h, find-set_runbook r id reg.dynamic)
  | inr h ↦ ground (arith, h, find-set_runbook r id reg.dynamic)
]
