-- ===== src/Plan/Requests/BuiltIn.antt =====
-- apps/api/src/app.ts with the table of apps/api/src/registries.ts: which of the built-in runbooks run
-- without an approval.
use text.Mathlib.TextEquality.{eq_iff}
use wireguard_ops_cockpit.Base.{
  ℕ, ◌≡◌, ◌≢◌, refl, sym, ◌∙◌, String, false, Option, some, [], ◌==◌, string_eq, All, find,
  find-holds, find-All, arith,
}
use wireguard_ops_cockpit.Base.Actions.{done}
use wireguard_ops_cockpit.Plan.{Config, World}
use wireguard_ops_cockpit.Plan.Requests.{execute_runbook}
use wireguard_ops_cockpit.Plan.Requests.Laws.{execute_runbook-starts}
use wireguard_ops_cockpit.Registry.{Runbook, Registry, find_runbook}
use wireguard_ops_cockpit.Registry.Dispatch.{Dispatch, build_runbook_dispatch, row_of}
use wireguard_ops_cockpit.Registry.Runbooks.{built_in_runbooks}
use wireguard_ops_cockpit.Store.{Review}
use wireguard_ops_cockpit.Store.Accounts.{Actor}

-- Only the health check needs no approval.
IsUnapproved : Runbook → Type 0
IsUnapproved r = r.requires_approval ≡ false → r.id ≡ "disk-health-check"

built_in_runbooks-IsUnapproved : All IsUnapproved built_in_runbooks
unfolding built_in_runbooks IsUnapproved
built_in_runbooks-IsUnapproved = (
  (λ h. refl),
  (
    (λ h. ground arith),
    (
      (λ h. ground arith),
      (
        (λ h. ground arith),
        (
          (λ h. ground arith),
          (
            (λ h. ground arith),
            ((λ h. ground arith), ((λ h. ground arith), ((λ h. ground arith), tt))),
          ),
        ),
      ),
    ),
  ),
)

-- Each built-in runbook has a command, and asks for an approval exactly if it needs privileges.
IsBounded : (String → String → String) → String → Runbook → Type 0
IsBounded resolve root r =
    ((d : Dispatch) × (build_runbook_dispatch resolve root r ≡ done d))
    × (r.requires_approval ≡ r.privileged_helper_requested)

built_in_runbooks-IsBounded :
    (resolve : String → String → String) (root : String)
    → All (IsBounded resolve root) built_in_runbooks
unfolding built_in_runbooks IsBounded build_runbook_dispatch row_of
built_in_runbooks-IsBounded resolve root = (
  ((_, refl), refl),
  (
    ((_, refl), refl),
    (
      ((_, refl), refl),
      (
        ((_, refl), refl),
        (
          ((_, refl), refl),
          (((_, refl), refl), (((_, refl), refl), (((_, refl), refl), (((_, refl), refl), tt)))),
        ),
      ),
    ),
  ),
)

find_built_in :
    (reg : Registry) (id : String) (r : Runbook)
    → reg.dynamic ≡ []
    → reg.built_in ≡ built_in_runbooks
    → find_runbook reg id ≡ some r
    → find (λ (x : Runbook). x.id == id) built_in_runbooks ≡ some r
unfolding find_runbook
find_built_in reg id r none_registered built_in found = ground arith

-- If no dynamic runbook is registered and the execute route starts a command of a built-in runbook,
-- then it is the disk health check, which has a command and needs no privileges.
pub execute_runbook-built_in :
    (config : Config) (now : ℕ) (actor : Actor) (id : String) (session_id : Option String)
    (safety : Review) (w : World)
    → w.registry.dynamic ≡ []
    → w.registry.built_in ≡ built_in_runbooks
    → (execute_runbook config now actor id session_id safety w).1.launched ≢ w.launched
    → (runbook : Runbook) × (d : Dispatch) × (find_runbook w.registry id ≡ some runbook)
      × (id ≡ "disk-health-check")
      × (build_runbook_dispatch config.resolve config.repo_root runbook ≡ done d)
      × (runbook.privileged_helper_requested ≡ false)
unfolding IsUnapproved IsBounded
execute_runbook-built_in config now actor id session_id safety w empty_map table starts =
    let (runbook, session, registered, named, owned, unapproved, a, b, c, one) =
      execute_runbook-starts config now actor id session_id safety w starts in
    let found = find_built_in w.registry id runbook empty_map table registered in
    let by_id =
      (eq_iff runbook.id id).0
        (find-holds (λ (x : Runbook). x.id == id) built_in_runbooks runbook found) in
    let health =
      find-All IsUnapproved _ built_in_runbooks runbook built_in_runbooks-IsUnapproved found
        unapproved in
    let ((d, dispatched), same) =
      find-All (IsBounded config.resolve config.repo_root) _ built_in_runbooks runbook
        (built_in_runbooks-IsBounded config.resolve config.repo_root) found in
    (runbook, d, registered, sym by_id ∙ health, dispatched, sym same ∙ unapproved)
