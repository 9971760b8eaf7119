-- ===== src/Controller/Manager/Gives.antt =====
-- `AllocateAndAssign` (internal/controller/ip_manager.go): when it gives an address.
use helios_lb.Prelude.{◌+◌, ◌<◌, ◌≡◌, refl, true, false, List, [], Text, text_eq, text_eq_refl, ok}
use helios_lb.Net.Addr.{Ip}
use helios_lb.Net.Print.{ip_string}
use helios_lb.Network.Parse.{parse_ip_range}
use helios_lb.Network.Value.{value}
use helios_lb.Network.Allocator.{IpAllocator, is_used, mark_used}
use helios_lb.Network.Allocator.Scan.{is_used-mark_used}
use helios_lb.Network.Allocator.Free.{IsPool, InRange, allocate_ip_finds}
use helios_lb.Network.Manager.{NetworkManager, manager_allocate}
use helios_lb.Api.Types.{HeliosConfig}
use helios_lb.Controller.Types.{Service, Client}
use helios_lb.Controller.Manager.{
  allocate, mark_others, assign_ip_to_service, assigned, with_ipv4, allocate_and_assign,
}
use helios_lb.Controller.Manager.Single.{no_request}

-- The range is a pool with a free address among the first ones that the scan tries.
abbrev pub HasRoom : IpAllocator → Text → Type 0
HasRoom a r =
    (start : Ip) × (end : Ip) × (y : Ip) × (parse_ip_range r ≡ ok (start, end))
    × IsPool start end
    × InRange start end y
    × (value y < value start + a.max_scan)
    × (is_used a (ip_string y) ≡ false)

room_gives :
    (nm : NetworkManager) (r : Text)
    → HasRoom nm.ip_allocator r
    → (s : Text) × (allocate nm r []
        ≡ (ok s, record { ip_allocator = mark_used nm.ip_allocator s }))
      × (is_used nm.ip_allocator s ≡ false)
unfolding allocate manager_allocate text_eq
room_gives nm r (start, end, y, p, pool, within, near, free) =
    let (s, q, f) =
      allocate_ip_finds nm.ip_allocator r start end y p pool.family pool.several pool.below_top
        within near free in
    (s, rw (allocate, manager_allocate, q) refl, f)

module _ {W E : Type 0} (client : Client W E) where
  -- When the configs are listed, the service requests no address, the config has no IPv6 range, the
  -- range is of several addresses of one family, ends before the last address of the family and has,
  -- once the addresses of the other configs are marked, a free address among the first that the scan
  -- tries, and every update of the service succeeds, then `AllocateAndAssign` gives the service an
  -- address, which was free and is in use afterwards.
  pub allocate_and_assign_gives :
      (nm : NetworkManager) (w : W) (hc : HeliosConfig) (svc : Service)
      (configs : List HeliosConfig)
      → client.list_configs w ≡ ok configs
      → svc.load_balancer_ip ≡ []
      → text_eq hc.spec.ipv6_range [] ≡ true
      → HasRoom (mark_others nm hc configs).ip_allocator hc.spec.ip_range
      → ((ip : Text) → (w' : W) × (assign_ip_to_service client svc ip [] w ≡ (ok tt, w')))
      → (s : Text) × (nm' : NetworkManager) × (w' : W) × (allocate_and_assign client nm w hc svc
          ≡ (ok (s, []), nm', w'))
        × (is_used (mark_others nm hc configs).ip_allocator s ≡ false)
        × (is_used nm'.ip_allocator s ≡ true)
  unfolding allocate_and_assign with_ipv4 assigned assign_ip_to_service room_gives mark_used
  allocate_and_assign_gives nm w hc svc configs l q six room done =
      let marked = mark_others nm hc configs in
      let (s, given, free) = room_gives marked hc.spec.ip_range room in
      let (w', updated) = done s in
      (
        s,
        record { ip_allocator = mark_used marked.ip_allocator s },
        w',
        rw (allocate_and_assign, l, q, no_request, given, six, updated) refl,
        free,
        rw (is_used-mark_used marked.ip_allocator s s, text_eq_refl s) refl,
      )
