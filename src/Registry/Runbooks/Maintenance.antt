-- ===== src/Registry/Runbooks/Maintenance.antt =====
-- apps/api/src/registries.ts, `RUNBOOKS`: the health check, the preflight of an update and the restart.
use wireguard_ops_cockpit.Base.{true, false, none, some, [], ◌∷◌}
use wireguard_ops_cockpit.Registry.{Runbook, StepKind, host_tmux}

abbrev pub disk_health_check : Runbook
disk_health_check = record {
  id = "disk-health-check";
  name = "Disk and backup health check";
  summary = "Runs a real host-side disk and filesystem check inside the selected tmux session.";
  requires_session = true;
  requires_approval = false;
  integration = host_tmux;
  privileged_helper_requested = false;
  script_ids = "script-disk-health-check" ∷ [];
  workflow_steps =
      ((record {
        id = "collect-bounded-diagnostics";
        label = "Collect bounded diagnostics";
        description =
            "Run the allowlisted disk and backup visibility helper inside the selected task session.";
        kind = StepKind.runbook;
        runbook_id = some "disk-health-check";
        agent_id = none;
        approval_hint = none;
      })
        ∷ (record {
          id = "choose-follow-up";
          label = "Choose the next bounded follow-up";
          description =
              "Escalate only to another reviewed runbook or a supervised session checkpoint if the diagnostics show broader impact.";
          kind = StepKind.verify;
          runbook_id = none;
          agent_id = none;
          approval_hint = none;
        })
        ∷ []);
}

abbrev pub nextcloud_update_plan : Runbook
nextcloud_update_plan = record {
  id = "nextcloud-update-plan";
  name = "Nextcloud update preflight";
  summary =
      "Runs a bounded host-side Nextcloud inspection and stages the reviewed multi-runbook maintenance flow in the tmux session.";
  requires_session = true;
  requires_approval = true;
  integration = host_tmux;
  privileged_helper_requested = true;
  script_ids = "script-nextcloud-update-plan" ∷ [];
  workflow_steps =
      ((record {
        id = "collect-maintenance-context";
        label = "Collect maintenance context";
        description =
            "Run the bounded Nextcloud inspection helper to capture app compatibility, maintenance mode, and likely upgrade blockers.";
        kind = StepKind.runbook;
        runbook_id = some "nextcloud-update-plan";
        agent_id = none;
        approval_hint = none;
      })
        ∷ (record {
          id = "supervised-repair-checkpoint";
          label = "Run supervised repair checkpoint";
          description =
              "Launch the supervised repair agent in the same task session if the findings need staged remediation guidance before the next bounded action.";
          kind = StepKind.agent;
          runbook_id = none;
          agent_id = some "supervised-repair-agent";
          approval_hint =
              some "The supervised repair agent needs explicit operator approval before it starts.";
        })
        ∷ (record {
          id = "enable-maintenance-mode";
          label = "Enable maintenance mode";
          description =
              "Move into a bounded maintenance window only after the operator accepts the reviewed preflight state.";
          kind = StepKind.runbook;
          runbook_id = some "nextcloud-enable-maintenance";
          agent_id = none;
          approval_hint = none;
        })
        ∷ (record {
          id = "run-occ-upgrade";
          label = "Run occ upgrade";
          description =
              "Dispatch the bounded upgrade helper instead of combining maintenance mode and migration steps into one larger shell path.";
          kind = StepKind.runbook;
          runbook_id = some "nextcloud-occ-upgrade";
          agent_id = none;
          approval_hint = none;
        })
        ∷ (record {
          id = "disable-maintenance-mode";
          label = "Disable maintenance mode";
          description =
              "Clear maintenance mode only after the bounded upgrade helper completed successfully.";
          kind = StepKind.runbook;
          runbook_id = some "nextcloud-disable-maintenance";
          agent_id = none;
          approval_hint = none;
        })
        ∷ (record {
          id = "verify-post-update-state";
          label = "Verify post-update state";
          description =
              "Run the bounded verification helper to confirm Nextcloud and the web stack recovered cleanly.";
          kind = StepKind.runbook;
          runbook_id = some "nextcloud-post-update-verify";
          agent_id = none;
          approval_hint = none;
        })
        ∷ (record {
          id = "optional-reviewed-restart";
          label = "Optional reviewed restart";
          description =
              "If the verification helper still shows a service mismatch, use the reviewed restart helper instead of free-form shell repair.";
          kind = StepKind.runbook;
          runbook_id = some "service-restart-request";
          agent_id = none;
          approval_hint = none;
        })
        ∷ (record {
          id = "optional-reviewed-rollback";
          label = "Optional reviewed rollback";
          description =
              "If the reviewed maintenance path still fails, dispatch the bounded rollback restore helper instead of improvised recovery.";
          kind = StepKind.runbook;
          runbook_id = some "nextcloud-rollback-restore";
          agent_id = none;
          approval_hint = none;
        })
        ∷ []);
}

abbrev pub service_restart_request : Runbook
service_restart_request = record {
  id = "service-restart-request";
  name = "Nextcloud web stack restart";
  summary =
      "Restarts php8.3-fpm and apache2 through a bounded approved helper in the selected tmux session.";
  requires_session = true;
  requires_approval = true;
  integration = host_tmux;
  privileged_helper_requested = true;
  script_ids = "script-service-restart" ∷ [];
  workflow_steps =
      ((record {
        id = "confirm-reviewed-scope";
        label = "Confirm reviewed scope";
        description =
            "Verify the restart still matches the reviewed target and only affects the approved Nextcloud web services.";
        kind = StepKind.approval;
        runbook_id = none;
        agent_id = none;
        approval_hint = some "Service restarts stay behind explicit approval.";
      })
        ∷ (record {
          id = "run-bounded-restart";
          label = "Run bounded restart helper";
          description =
              "Dispatch the allowlisted restart helper for php8.3-fpm and apache2 in the selected session.";
          kind = StepKind.runbook;
          runbook_id = some "service-restart-request";
          agent_id = none;
          approval_hint = none;
        })
        ∷ (record {
          id = "verify-service-health";
          label = "Verify service health";
          description =
              "Check that the restart restored the intended web service state before the session is closed.";
          kind = StepKind.verify;
          runbook_id = none;
          agent_id = none;
          approval_hint = none;
        })
        ∷ []);
}
