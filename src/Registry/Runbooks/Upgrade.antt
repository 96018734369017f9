-- ===== src/Registry/Runbooks/Upgrade.antt =====
-- apps/api/src/registries.ts, `RUNBOOKS`: the steps of an upgrade of Nextcloud.
use wireguard_ops_cockpit.Base.{true, none, some, [], ◌∷◌}
use wireguard_ops_cockpit.Registry.{Runbook, StepKind, host_tmux}

abbrev pub nextcloud_enable_maintenance : Runbook
nextcloud_enable_maintenance = record {
  id = "nextcloud-enable-maintenance";
  name = "Nextcloud maintenance mode on";
  summary =
      "Enables Nextcloud maintenance mode through a bounded occ helper in the selected tmux session.";
  requires_session = true;
  requires_approval = true;
  integration = host_tmux;
  privileged_helper_requested = true;
  script_ids = "script-nextcloud-enable-maintenance" ∷ [];
  workflow_steps =
      ((record {
        id = "confirm-maintenance-window";
        label = "Confirm maintenance window";
        description =
            "Operator confirms the preflight findings still justify entering maintenance mode.";
        kind = StepKind.approval;
        runbook_id = none;
        agent_id = none;
        approval_hint = some "Maintenance mode changes stay behind explicit approval.";
      })
        ∷ (record {
          id = "run-maintenance-on-helper";
          label = "Enable maintenance mode";
          description =
              "Dispatch the bounded helper that flips the Nextcloud maintenance flag for the active flow.";
          kind = StepKind.runbook;
          runbook_id = some "nextcloud-enable-maintenance";
          agent_id = none;
          approval_hint = none;
        })
        ∷ (record {
          id = "verify-maintenance-flag";
          label = "Verify maintenance flag";
          description =
              "Check that maintenance mode is active before continuing to the upgrade step.";
          kind = StepKind.verify;
          runbook_id = none;
          agent_id = none;
          approval_hint = none;
        })
        ∷ []);
}

abbrev pub nextcloud_occ_upgrade : Runbook
nextcloud_occ_upgrade = record {
  id = "nextcloud-occ-upgrade";
  name = "Nextcloud occ upgrade";
  summary = "Runs the bounded occ upgrade step for the active Nextcloud maintenance flow.";
  requires_session = true;
  requires_approval = true;
  integration = host_tmux;
  privileged_helper_requested = true;
  script_ids = "script-nextcloud-occ-upgrade" ∷ [];
  workflow_steps =
      ((record {
        id = "confirm-upgrade-scope";
        label = "Confirm upgrade scope";
        description =
            "Operator confirms the active maintenance flow is in the expected phase before the upgrade runs.";
        kind = StepKind.approval;
        runbook_id = none;
        agent_id = none;
        approval_hint = some "The occ upgrade step stays behind explicit approval.";
      })
        ∷ (record {
          id = "run-occ-upgrade-helper";
          label = "Run occ upgrade helper";
          description =
              "Dispatch the bounded helper that performs the occ upgrade for the current Nextcloud flow.";
          kind = StepKind.runbook;
          runbook_id = some "nextcloud-occ-upgrade";
          agent_id = none;
          approval_hint = none;
        })
        ∷ (record {
          id = "review-upgrade-status";
          label = "Review upgrade status";
          description = "Check the reported Nextcloud status before leaving maintenance mode.";
          kind = StepKind.verify;
          runbook_id = none;
          agent_id = none;
          approval_hint = none;
        })
        ∷ []);
}

abbrev pub nextcloud_disable_maintenance : Runbook
nextcloud_disable_maintenance = record {
  id = "nextcloud-disable-maintenance";
  name = "Nextcloud maintenance mode off";
  summary =
      "Disables Nextcloud maintenance mode after the reviewed upgrade phase completed successfully.";
  requires_session = true;
  requires_approval = true;
  integration = host_tmux;
  privileged_helper_requested = true;
  script_ids = "script-nextcloud-disable-maintenance" ∷ [];
  workflow_steps =
      ((record {
        id = "confirm-maintenance-exit";
        label = "Confirm maintenance exit";
        description =
            "Operator confirms the bounded upgrade step completed and rollback notes are captured.";
        kind = StepKind.approval;
        runbook_id = none;
        agent_id = none;
        approval_hint = some "Leaving maintenance mode stays behind explicit approval.";
      })
        ∷ (record {
          id = "run-maintenance-off-helper";
          label = "Disable maintenance mode";
          description =
              "Dispatch the bounded helper that clears the Nextcloud maintenance flag for the active flow.";
          kind = StepKind.runbook;
          runbook_id = some "nextcloud-disable-maintenance";
          agent_id = none;
          approval_hint = none;
        })
        ∷ (record {
          id = "verify-maintenance-cleared";
          label = "Verify maintenance mode is cleared";
          description =
              "Check that Nextcloud is ready for post-update verification before the session continues.";
          kind = StepKind.verify;
          runbook_id = none;
          agent_id = none;
          approval_hint = none;
        })
        ∷ []);
}
