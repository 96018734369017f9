-- ===== src/Registry/Scripts.antt =====
-- apps/api/src/registries.ts, `SCRIPTS`: the built-in scripts.
use wireguard_ops_cockpit.Base.{true, false, List, [], ◌∷◌}
use wireguard_ops_cockpit.Registry.{Script}

abbrev script_disk_health_check : Script
script_disk_health_check = record {
  id = "script-disk-health-check";
  name = "Disk health helper";
  summary = "Collects disk, filesystem, and backup visibility inside the task tmux session.";
  privileged_helper_requested = false;
  source_path = "bin/disk-health-check.sh";
}

abbrev script_nextcloud_update_plan : Script
script_nextcloud_update_plan = record {
  id = "script-nextcloud-update-plan";
  name = "Nextcloud preflight helper";
  summary =
      "Builds a bounded Nextcloud maintenance context and opens a reviewed maintenance operation before any mutation can continue.";
  privileged_helper_requested = true;
  source_path = "bin/nextcloud-update-plan.sh";
}

abbrev script_nextcloud_enable_maintenance : Script
script_nextcloud_enable_maintenance = record {
  id = "script-nextcloud-enable-maintenance";
  name = "Nextcloud maintenance-mode enable helper";
  summary = "Enables Nextcloud maintenance mode through a bounded occ helper.";
  privileged_helper_requested = true;
  source_path = "bin/nextcloud-enable-maintenance.sh";
}

abbrev script_nextcloud_occ_upgrade : Script
script_nextcloud_occ_upgrade = record {
  id = "script-nextcloud-occ-upgrade";
  name = "Nextcloud occ upgrade helper";
  summary = "Runs the bounded occ upgrade step for the active Nextcloud maintenance flow.";
  privileged_helper_requested = true;
  source_path = "bin/nextcloud-occ-upgrade.sh";
}

abbrev script_nextcloud_disable_maintenance : Script
script_nextcloud_disable_maintenance = record {
  id = "script-nextcloud-disable-maintenance";
  name = "Nextcloud maintenance-mode disable helper";
  summary = "Disables Nextcloud maintenance mode after a reviewed upgrade phase completes.";
  privileged_helper_requested = true;
  source_path = "bin/nextcloud-disable-maintenance.sh";
}

abbrev script_nextcloud_post_update_verify : Script
script_nextcloud_post_update_verify = record {
  id = "script-nextcloud-post-update-verify";
  name = "Nextcloud post-update verification helper";
  summary = "Verifies Nextcloud and service status after maintenance mode has been cleared.";
  privileged_helper_requested = true;
  source_path = "bin/nextcloud-post-update-verify.sh";
}

abbrev script_nextcloud_rollback_restore : Script
script_nextcloud_rollback_restore = record {
  id = "script-nextcloud-rollback-restore";
  name = "Nextcloud rollback restore helper";
  summary =
      "Restores the reviewed Nextcloud rollback backup set through a fixed manifest under the bounded backup root.";
  privileged_helper_requested = true;
  source_path = "bin/nextcloud-rollback-restore.sh";
}

abbrev script_nextcloud_rollback_verify : Script
script_nextcloud_rollback_verify = record {
  id = "script-nextcloud-rollback-verify";
  name = "Nextcloud rollback verification helper";
  summary =
      "Verifies the restored Nextcloud rollback state while the service remains in a controlled maintenance window.";
  privileged_helper_requested = true;
  source_path = "bin/nextcloud-rollback-verify.sh";
}

abbrev script_service_restart : Script
script_service_restart = record {
  id = "script-service-restart";
  name = "Web stack restart helper";
  summary =
      "Restarts the approved Nextcloud web services through a bounded helper path that shares the maintenance lock.";
  privileged_helper_requested = true;
  source_path = "bin/restart-nextcloud-web-stack.sh";
}

unfoldable pub built_in_scripts : List Script
built_in_scripts =
    script_disk_health_check ∷ script_nextcloud_update_plan ∷ script_nextcloud_enable_maintenance
    ∷ script_nextcloud_occ_upgrade ∷ script_nextcloud_disable_maintenance
    ∷ script_nextcloud_post_update_verify ∷ script_nextcloud_rollback_restore
    ∷ script_nextcloud_rollback_verify ∷ script_service_restart ∷ []
