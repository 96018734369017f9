-- ===== src/Registry/Tests.antt =====
-- The registry at concrete runbooks.
use wireguard_ops_cockpit.Base.{
  ◌≡◌, refl, true, false, some, [], ◌∷◌, ◌==◌, string_eq, if◌then◌else◌,
}
use wireguard_ops_cockpit.Base.Text.{joined}
use wireguard_ops_cockpit.Base.Actions.{thrown}
use wireguard_ops_cockpit.Registry.{
  Runbook, Registry, host_tmux, find_runbook, register_dynamic_runbook,
}
use wireguard_ops_cockpit.Registry.Dispatch.{
  shell_quote, is_safe_name, build_runbook_dispatch, row_of,
}
use wireguard_ops_cockpit.Registry.Laws.{find_runbook-register_dynamic_runbook}

abbrev disk : Runbook
disk = record {
  id = "disk-health-check";
  name = "Disk health";
  summary = "";
  requires_session = true;
  requires_approval = true;
  integration = host_tmux;
  privileged_helper_requested = false;
  script_ids = [];
  workflow_steps = [];
}

abbrev reg : Registry
reg = record { dynamic = []; built_in = disk ∷ []; scripts = []; agents = [] }

abbrev replacement : Runbook
replacement = record disk { requires_approval = false }

quotes : shell_quote "it's" ≡ "'it'\"'\"'s'"
unfolding shell_quote joined
quotes = refl

safe : is_safe_name "ops-1" ≡ true
unfolding is_safe_name
safe = refl

unsafe : is_safe_name "-x" ≡ false
unfolding is_safe_name
unsafe = refl

unregistered :
    build_runbook_dispatch (λ root path. path) "/opt" (record disk { id = "gen-x" })
    ≡ thrown "runbook gen-x has no registered bounded dispatch helper"
unfolding build_runbook_dispatch row_of joined
unregistered = refl

find_runbook-register_dynamic_runbook_example :
    find_runbook (register_dynamic_runbook reg replacement) "disk-health-check" ≡ (
      if replacement.id == "disk-health-check"
      then some replacement
      else find_runbook reg "disk-health-check")
find_runbook-register_dynamic_runbook_example =
    find_runbook-register_dynamic_runbook reg replacement "disk-health-check"
