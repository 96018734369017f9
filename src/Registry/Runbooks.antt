-- ===== src/Registry/Runbooks.antt =====
-- apps/api/src/registries.ts, `RUNBOOKS`: the built-in runbooks.
pub mod Maintenance
pub mod Upgrade
pub mod Rollback
use wireguard_ops_cockpit.Base.{List, [], ◌∷◌}
use wireguard_ops_cockpit.Registry.{Runbook}
use wireguard_ops_cockpit.Registry.Runbooks.Maintenance.{
  disk_health_check, nextcloud_update_plan, service_restart_request,
}
use wireguard_ops_cockpit.Registry.Runbooks.Upgrade.{
  nextcloud_enable_maintenance, nextcloud_occ_upgrade, nextcloud_disable_maintenance,
}
use wireguard_ops_cockpit.Registry.Runbooks.Rollback.{
  nextcloud_post_update_verify, nextcloud_rollback_restore, nextcloud_rollback_verify,
}

unfoldable pub built_in_runbooks : List Runbook
built_in_runbooks =
    disk_health_check ∷ nextcloud_update_plan ∷ nextcloud_enable_maintenance ∷ nextcloud_occ_upgrade
    ∷ nextcloud_disable_maintenance ∷ nextcloud_post_update_verify ∷ nextcloud_rollback_restore
    ∷ nextcloud_rollback_verify ∷ service_restart_request ∷ []
