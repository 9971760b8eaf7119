-- ===== src/Controller/Manager/Deletion.antt =====
-- `ReleaseAll` (internal/controller/ip_manager.go): which addresses it frees.
use helios_lb.Prelude.{
  ◌≡◌, refl, Bool, false, ◌||◌, [], ◌∷◌, if◌then◌else◌, Text, Dict, text_eq, arith,
}
use helios_lb.Network.Allocator.{is_used}
use helios_lb.Network.Allocator.Scan.{is_used-release_ip}
use helios_lb.Network.Manager.{NetworkManager, manager_release}
use helios_lb.Api.Types.{HeliosConfig}
use helios_lb.Controller.Types.{Client}
use helios_lb.Controller.Manager.{release_values, release_all}

is_used-manager_release :
    (nm : NetworkManager) (s t : Text)
    → is_used (manager_release nm s).ip_allocator t
      ≡ (if text_eq s t then false else is_used nm.ip_allocator t)
unfolding manager_release
is_used-manager_release nm s t = is_used-release_ip nm.ip_allocator s t

-- The address is a value of the map.
unfoldable pub is_value : Text → Dict Text → Bool
is_value t [] = false
is_value t ((service, ip) ∷ m) = text_eq ip t || is_value t m

release_values-is_used :
    (nm : NetworkManager) (m : Dict Text) (t : Text)
    → is_used (release_values nm m).ip_allocator t
      ≡ (if is_value t m then false else is_used nm.ip_allocator t)
unfolding release_values is_value
release_values-is_used nm [] t = refl
release_values-is_used nm ((service, ip) ∷ m) t =
    ground
      (arith, release_values-is_used (manager_release nm ip) m t, is_used-manager_release nm ip t)

module _ {W E : Type 0} (client : Client W E) where
  -- After `ReleaseAll` an address is in use exactly when it was before and is not among the
  -- addresses of the config's status, of either family.
  pub release_all-is_used :
      (nm : NetworkManager) (w : W) (hc : HeliosConfig) (t : Text)
      → is_used (release_all client nm w hc).0.ip_allocator t ≡ (
          if is_value t hc.status.allocated_ips || is_value t hc.status.allocated_ipv6s
          then false
          else is_used nm.ip_allocator t)
  unfolding release_all
  release_all-is_used nm w hc t = ground (
    arith,
    release_values-is_used (release_values nm hc.status.allocated_ips) hc.status.allocated_ipv6s t,
    release_values-is_used nm hc.status.allocated_ips t,
  )
