-- ===== src/Envelope/Capability.antt =====
-- hermes-security.ts: the capability ids, in the order that `sort()` gives their texts.
use wireguard_ops_cockpit.Base.{
  ℕ, ◌≡◌, ◌↔◌, ap, Bool, true, List, Comparable, nat_beq, nat_beq_iff, arith,
}
use wireguard_ops_cockpit.Base.Sorting.{sort_by}

pub data CapabilityId : Type 0 where
  borg_manage database_direct dienste_update disk_manage filesystem_write host_run : CapabilityId
  identity_manage network_manage package_manage read_host self_update : CapabilityId
  service_manage shell_exception : CapabilityId

-- The place of a capability's text ("borg.manage", …) in the order of texts.
abbrev pub rank : CapabilityId → ℕ
rank borg_manage = 0
rank database_direct = 1
rank dienste_update = 2
rank disk_manage = 3
rank filesystem_write = 4
rank host_run = 5
rank identity_manage = 6
rank network_manage = 7
rank package_manage = 8
rank read_host = 9
rank self_update = 10
rank service_manage = 11
rank shell_exception = 12

abbrev pub capability_beq : CapabilityId → CapabilityId → Bool
capability_beq a b = nat_beq (rank a) (rank b)

pub rank-injective : (a b : CapabilityId) → rank a ≡ rank b → a ≡ b
rank-injective a b h = ground arith

pub capability_beq_iff : (a b : CapabilityId) → (capability_beq a b ≡ true) ↔ (a ≡ b)
capability_beq_iff a b = (
  λ h. rank-injective a b ((nat_beq_iff (rank a) (rank b)).0 h),
  λ h. (nat_beq_iff (rank a) (rank b)).1 (ap rank h),
)

instance abbrev pub capability_eq : Comparable CapabilityId
capability_eq = record { equals = capability_beq; equals_iff = capability_beq_iff }

-- `[...capabilities].sort()`
unfoldable pub sort_capabilities : List CapabilityId → List CapabilityId
unfolding sort_by
sort_capabilities = sort_by rank
