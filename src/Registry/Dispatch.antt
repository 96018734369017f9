-- ===== src/Registry/Dispatch.antt =====
-- apps/api/src/registries.ts: the command of a runbook; packages/tmux-adapter/src/index.ts: how a
-- command is started. `resolve` is Node's `path.resolve`, and the tmux program an argument.
use Prim.Native.Char.{code}
use wireguard_ops_cockpit.Base.{
  ℕ, String, Bool, true, false, Option, none, some, List, [], ◌∷◌, ◌==◌, ◌&&◌, ◌||◌, not, leb,
  string_eq, nat_eq, all, any, length, if◌then◌else◌,
}
use wireguard_ops_cockpit.Base.Actions.{Result, done, thrown}
use wireguard_ops_cockpit.Base.Text.{codes, is_digit, joined}
use wireguard_ops_cockpit.Registry.{Runbook}
use wireguard_ops_cockpit.Store.{TmuxBackend, tmux, disabled}

pub record CommandSpec : Type 0 where
  pub executable : String
  pub args : List String
  pub cwd : Option String

pub record LaunchResult : Type 0 where
  pub started : Bool
  pub backend : TmuxBackend
  pub note : String

pub record Dispatch : Type 0 where
  pub window_name : String
  pub command : CommandSpec

-- `value.replace(/'/g, "'\"'\"'")`
abbrev quoted : String → String
quoted String.[] = String.[]
quoted (String.◌∷◌ c s) =
    let rest = quoted s in
    if code c == 39 then joined ("'\"'\"'" ∷ rest ∷ []) else String.◌∷◌ c rest

unfoldable pub shell_quote : String → String
shell_quote value = joined ("'" ∷ quoted value ∷ "'" ∷ [])

-- A row of `commandByRunbook`: the runbook, its window, what stands before the script, the script.
abbrev pub Row : Type 0
Row = String × String × String × String

abbrev pub command_by_runbook : List Row
command_by_runbook =
    ("disk-health-check", "disk-health", "", "bin/disk-health-check.sh")
    ∷ ("nextcloud-update-plan", "nextcloud-plan", "sudo -n ", "bin/nextcloud-update-plan.sh")
    ∷ (
      "nextcloud-enable-maintenance", "nextcloud-maint-on", "sudo -n ",
      "bin/nextcloud-enable-maintenance.sh",
    )
    ∷ ("nextcloud-occ-upgrade", "nextcloud-upgrade", "sudo -n ", "bin/nextcloud-occ-upgrade.sh")
    ∷ (
      "nextcloud-disable-maintenance", "nextcloud-maint-off", "sudo -n ",
      "bin/nextcloud-disable-maintenance.sh",
    )
    ∷ (
      "nextcloud-post-update-verify", "nextcloud-verify", "sudo -n ",
      "bin/nextcloud-post-update-verify.sh",
    )
    ∷ (
      "nextcloud-rollback-restore", "nextcloud-rollback", "sudo -n ",
      "bin/nextcloud-rollback-restore.sh",
    )
    ∷ (
      "nextcloud-rollback-verify", "nextcloud-rollback-verify", "sudo -n ",
      "bin/nextcloud-rollback-verify.sh",
    )
    ∷ ("service-restart-request", "web-restart", "sudo -n ", "bin/restart-nextcloud-web-stack.sh")
    ∷ []

unfoldable pub row_of : String → List Row → Option Row
row_of id [] = none
row_of id (row ∷ rows) = let rest = row_of id rows in if row.0 == id then some row else rest

module _ (resolve : String → String → String) (repo_root : String) where
  abbrev pub dispatch_row : Row → Dispatch
  dispatch_row (id, window, prefix, script) = record {
    window_name = window;
    command = record {
      executable = "bash";
      args =
          "-lc"
          ∷ joined (
              "set -euo pipefail; "
              ∷ prefix
              ∷ shell_quote (resolve repo_root script)
              ∷ "; status=$?; sudo rm -f /etc/sudoers.d/runner-* /etc/sudoers.d/agent-* 2>/dev/null || true; printf '\\nRunbook finished with exit code %s. Staying attached for operator follow-up.\\n' \"$status\"; exec bash"
              ∷ [])
          ∷ [];
      cwd = some repo_root;
    };
  }

  unfoldable pub build_runbook_dispatch : Runbook → Result Dispatch
  unfolding row_of
  build_runbook_dispatch r = elim (row_of r.id command_by_runbook) [
    | none ↦ thrown (joined ("runbook " ∷ r.id ∷ " has no registered bounded dispatch helper" ∷ []))
    | some row ↦ done (dispatch_row row)
  ]

-- `/^[a-z0-9][a-z0-9-_]{1,31}$/i`
abbrev is_alphanumeric : ℕ → Bool
is_alphanumeric c = is_digit c || ((leb 65 c && leb c 90) || (leb 97 c && leb c 122))

abbrev is_safe : List ℕ → Bool
is_safe [] = false
is_safe (c ∷ cs) =
    is_alphanumeric c
    && (all (λ d. is_alphanumeric d || (d == 45 || d == 95)) cs
        && (leb 1 (length cs) && leb (length cs) 31))

unfoldable pub is_safe_name : String → Bool
is_safe_name s = is_safe (codes s)

-- `tmux` runs the program with these arguments: `none`, or its complaint.
unfoldable pub launch_command :
    TmuxBackend
    → (String → String → CommandSpec → Option String)
    → String
    → String
    → CommandSpec
    → Result LaunchResult
unfolding is_safe_name
launch_command disabled run session window command = done (record {
  started = false;
  backend = disabled;
  note = "tmux integration is disabled in this runtime";
})
launch_command tmux run session window command =
    if not (is_safe_name session)
    then thrown "session name must match ^[a-z0-9][a-z0-9-_]{1,31}$"
    else if not (is_safe_name window)
    then thrown "window name must match ^[a-z0-9][a-z0-9-_]{1,31}$"
    else if any (λ c. c == 0) (codes command.executable)
    then thrown "command executable contains invalid characters"
    else elim (run session window command) [
      | some complaint ↦ thrown complaint
      | none ↦ done (record {
        started = true;
        backend = tmux;
        note = joined ("started " ∷ command.executable ∷ " in tmux window " ∷ window ∷ []);
      })
    ]
