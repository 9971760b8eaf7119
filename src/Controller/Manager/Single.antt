-- ===== src/Controller/Manager/Single.antt =====
-- `AllocateAndAssign` (internal/controller/ip_manager.go) on a range of one address.
use helios_lb.Prelude.{
  ℕ, ◌≡◌, refl, sym, ◌∙◌, ap, Bool, true, false, List, [], ◌∷◌, none, if◌then◌else◌, Text, text_eq,
  text_eq_refl, arith, Result, ok, err, length, ◌==◌, ==_iff, trim_space, Bool-cases,
}
use helios_lb.Net.Addr.{Ip, equal}
use helios_lb.Net.Parse.{parse_ip}
use helios_lb.Net.Print.{ip_string}
use helios_lb.Network.Parse.{parse_ip_range}
use helios_lb.Network.Allocator.{allocate_between, is_used, mark_used}
use helios_lb.Network.Allocator.Free.{allocate_ip-parsed}
use helios_lb.Network.Allocator.Scan.{is_used-release_ip}
use helios_lb.Network.Manager.{NetworkManager, manager_allocate, manager_release}
use helios_lb.Api.Types.{HeliosConfig}
use helios_lb.Controller.Types.{Service, Client}
use helios_lb.Controller.Manager.{
  split_requested_ip, allocate, mark_others, assign_ip_to_service, assigned, with_ipv4,
  allocate_and_assign,
}

equal_refl : (ip : Ip) → equal ip ip ≡ true
unfolding equal
equal_refl ip = rw (equal, (==_iff (length ip) (length ip)).1 refl) (text_eq_refl ip)

one_address :
    (nm : NetworkManager) (r : Text) (ip : Ip)
    → parse_ip_range r ≡ ok (ip, ip)
    → allocate nm r []
      ≡ (ok (ip_string ip), record { ip_allocator = mark_used nm.ip_allocator (ip_string ip) })
unfolding allocate manager_allocate allocate_between text_eq
one_address nm r ip e =
    rw (allocate_ip-parsed nm.ip_allocator r ip ip e, allocate_between, equal_refl ip) refl

pub no_request : split_requested_ip [] ≡ ([], [])
unfolding split_requested_ip trim_space parse_ip
no_request = refl

module _ {W E : Type 0} (client : Client W E) where
  -- For a service without a requested address and a config of one address without an IPv6 range,
  -- when the configs are listed and the update of the service fails, the address is free
  -- afterwards, whether or not it was in use before.
  pub single_failure_frees :
      (nm : NetworkManager) (w w' : W) (hc : HeliosConfig) (svc : Service)
      (configs : List HeliosConfig) (ip : Ip) (x : E)
      → client.list_configs w ≡ ok configs
      → svc.load_balancer_ip ≡ []
      → parse_ip_range hc.spec.ip_range ≡ ok (ip, ip)
      → text_eq hc.spec.ipv6_range [] ≡ true
      → assign_ip_to_service client svc (ip_string ip) [] w ≡ (err x, w')
      → is_used (allocate_and_assign client nm w hc svc).1.ip_allocator (ip_string ip) ≡ false
  unfolding allocate_and_assign with_ipv4 assigned manager_release text_eq is_used
      helios_lb.Prelude.lookup assign_ip_to_service
  single_failure_frees nm w w' hc svc configs ip x l q p six fails =
      rw
        (
          allocate_and_assign,
          l,
          q,
          no_request,
          one_address (mark_others nm hc configs) hc.spec.ip_range ip p,
          six,
          fails,
          is_used-release_ip _ (ip_string ip) (ip_string ip),
          text_eq_refl (ip_string ip),
        )
        refl
