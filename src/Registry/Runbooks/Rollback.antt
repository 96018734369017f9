-- ===== src/Registry/Runbooks/Rollback.antt =====
-- apps/api/src/registries.ts, `RUNBOOKS`: the check after an update, and the rollback.
use wireguard_ops_cockpit.Base.{true, none, some, [], ◌∷◌}
use wireguard_ops_cockpit.Registry.{Runbook, StepKind, host_tmux}

abbrev pub nextcloud_post_update_verify : Runbook
nextcloud_post_update_verify = record {
  id = "nextcloud-post-update-verify";
  name = "Nextcloud post-update verification";
  summary =
      "Runs a bounded post-update verification helper for the active Nextcloud maintenance flow.";
  requires_session = true;
  requires_approval = true;
  integration = host_tmux;
  privileged_helper_requested = true;
  script_ids = "script-nextcloud-post-update-verify" ∷ [];
  workflow_steps =
      ((record {
        id = "collect-post-update-status";
        label = "Collect post-update status";
        description =
            "Dispatch the bounded helper that checks Nextcloud status and the web services after maintenance mode is cleared.";
        kind = StepKind.runbook;
        runbook_id = some "nextcloud-post-update-verify";
        agent_id = none;
        approval_hint = none;
      })
        ∷ (record {
          id = "restart-if-verification-fails";
          label = "Restart reviewed web stack if needed";
          description =
              "Only if verification still shows divergence, dispatch the reviewed restart helper instead of improvising in the shell.";
          kind = StepKind.runbook;
          runbook_id = some "service-restart-request";
          agent_id = none;
          approval_hint = none;
        })
        ∷ (record {
          id = "rollback-if-verification-fails";
          label = "Rollback with reviewed backup set if needed";
          description =
              "If post-update verification still fails, dispatch the bounded rollback restore helper tied to the approved rollback manifest.";
          kind = StepKind.runbook;
          runbook_id = some "nextcloud-rollback-restore";
          agent_id = none;
          approval_hint = none;
        })
        ∷ (record {
          id = "close-maintenance-flow";
          label = "Close maintenance flow";
          description =
              "Review the verification output and close the bounded maintenance flow only if the service state matches expectations.";
          kind = StepKind.verify;
          runbook_id = none;
          agent_id = none;
          approval_hint = none;
        })
        ∷ []);
}

abbrev pub nextcloud_rollback_restore : Runbook
nextcloud_rollback_restore = record {
  id = "nextcloud-rollback-restore";
  name = "Nextcloud rollback restore";
  summary =
      "Restores the approved Nextcloud rollback backup set through a fixed manifest under the bounded backup root.";
  requires_session = true;
  requires_approval = true;
  integration = host_tmux;
  privileged_helper_requested = true;
  script_ids = "script-nextcloud-rollback-restore" ∷ [];
  workflow_steps =
      ((record {
        id = "confirm-reviewed-rollback-scope";
        label = "Confirm reviewed rollback scope";
        description =
            "Operator confirms the rollback still matches the approved backup set and declared restore scope before any restore begins.";
        kind = StepKind.approval;
        runbook_id = none;
        agent_id = none;
        approval_hint =
            some "Rollback restore stays behind explicit approval and a reviewed manifest.";
      })
        ∷ (record {
          id = "run-rollback-restore-helper";
          label = "Run rollback restore helper";
          description =
              "Dispatch the bounded restore helper that reads only the approved rollback manifest under the fixed backup root.";
          kind = StepKind.runbook;
          runbook_id = some "nextcloud-rollback-restore";
          agent_id = none;
          approval_hint = none;
        })
        ∷ (record {
          id = "verify-rollback-state";
          label = "Verify rollback state";
          description =
              "Run the dedicated rollback verification helper before leaving the maintenance window.";
          kind = StepKind.runbook;
          runbook_id = some "nextcloud-rollback-verify";
          agent_id = none;
          approval_hint = none;
        })
        ∷ []);
}

abbrev pub nextcloud_rollback_verify : Runbook
nextcloud_rollback_verify = record {
  id = "nextcloud-rollback-verify";
  name = "Nextcloud rollback verification";
  summary =
      "Verifies the restored Nextcloud rollback state while the service remains in a controlled maintenance window.";
  requires_session = true;
  requires_approval = true;
  integration = host_tmux;
  privileged_helper_requested = true;
  script_ids = "script-nextcloud-rollback-verify" ∷ [];
  workflow_steps =
      ((record {
        id = "collect-rollback-verification-state";
        label = "Collect rollback verification state";
        description =
            "Dispatch the bounded helper that checks manifest markers, maintenance mode, and service health after restore.";
        kind = StepKind.runbook;
        runbook_id = some "nextcloud-rollback-verify";
        agent_id = none;
        approval_hint = none;
      })
        ∷ (record {
          id = "close-rollback-window";
          label = "Close rollback window";
          description =
              "Review the restore result and only continue with maintenance-mode exit once the rollback verification succeeds.";
          kind = StepKind.verify;
          runbook_id = none;
          agent_id = none;
          approval_hint = none;
        })
        ∷ []);
}
