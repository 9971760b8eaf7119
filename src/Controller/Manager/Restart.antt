-- ===== src/Controller/Manager/Restart.antt =====
-- `AllocateAndAssign` (internal/controller/ip_manager.go) after a restart, with a new allocator.
use helios_lb.Prelude.{
  ℕ, zero, suc, ◌≡◌, ◌<◌, refl, sym, ◌∙◌, ap, Bool, true, false, ◌&&◌, List, [], ◌∷◌, if◌then◌else◌,
  if-true, if-false, if-elim, Text, text_eq, arith, Result, ok, err, Bool-cases,
}
use helios_lb.Net.Addr.{Ip, equal, compare_bytes, not_above}
use helios_lb.Net.Print.{ip_string}
use helios_lb.Network.Parse.{parse_ip_range}
use helios_lb.Network.Allocator.{
  IpAllocator, new_ip_allocator, scan, allocate_between, is_used, mark_used,
}
use helios_lb.Network.Allocator.Free.{allocate_ip-parsed}
use helios_lb.Network.Manager.{NetworkManager, new_network_manager, manager_allocate}
use helios_lb.Api.Types.{HeliosConfig}
use helios_lb.Controller.Types.{Service, Client}
use helios_lb.Controller.Manager.{
  allocate, same_config, mark_others, assign_ip_to_service, assigned, with_ipv4,
  allocate_and_assign,
}
use helios_lb.Controller.Manager.Single.{no_request}

-- Every config of the list has the name and the namespace of `hc`.
abbrev pub Own : HeliosConfig → List HeliosConfig → Type 0
Own hc [] = Unit {0}
Own hc (c ∷ cs) = (same_config c hc ≡ true) × Own hc cs

mark_others-Own :
    (nm : NetworkManager) (hc : HeliosConfig) (cs : List HeliosConfig)
    → Own hc cs
    → mark_others nm hc cs ≡ nm
unfolding mark_others
mark_others-Own nm hc [] o = refl
mark_others-Own nm hc (c ∷ cs) (s, o) = if-true _ _ _ s ∙ mark_others-Own nm hc cs o

scan_first :
    (left : ℕ) (start end : Ip) (a : IpAllocator)
    → 0 < left
    → not_above (compare_bytes start end) ≡ true
    → is_used a (ip_string start) ≡ false
    → scan left start end a ≡ (ok (ip_string start), mark_used a (ip_string start))
unfolding scan
scan_first zero start end a p n u = ground arith
scan_first (suc left) start end a p n u = if-true _ _ _ n ∙ if-false _ _ _ u

allocate_first :
    (start end : Ip) (a : IpAllocator)
    → 0 < a.max_scan
    → not_above (compare_bytes start end) ≡ true
    → is_used a (ip_string start) ≡ false
    → allocate_between a start end ≡ (ok (ip_string start), mark_used a (ip_string start))
unfolding allocate_between
allocate_first start end a p n u =
    if-elim (λ x. x ≡ (ok (ip_string start), mark_used a (ip_string start))) (equal start end) _ _
      (λ q. refl) (λ q. scan_first a.max_scan start end a p n u)

first_of :
    (nm : NetworkManager) (r : Text) (start end : Ip)
    → parse_ip_range r ≡ ok (start, end)
    → not_above (compare_bytes start end) ≡ true
    → is_used nm.ip_allocator (ip_string start) ≡ false
    → 0 < nm.ip_allocator.max_scan
    → allocate nm r [] ≡ (
      ok (ip_string start),
      record { ip_allocator = mark_used nm.ip_allocator (ip_string start) },
    )
unfolding allocate manager_allocate text_eq
first_of nm r start end p n u room =
    rw
      (
        allocate_ip-parsed nm.ip_allocator r start end p,
        allocate_first start end nm.ip_allocator room n u,
      )
      refl

new_is_empty : (s : Text) → is_used new_network_manager.ip_allocator s ≡ false
unfolding new_network_manager new_ip_allocator is_used helios_lb.Prelude.lookup
new_is_empty s = refl

new_has_room : 0 < new_network_manager.ip_allocator.max_scan
unfolding new_network_manager new_ip_allocator
new_has_room = omega arith

module _ {W E : Type 0} (client : Client W E) where
  -- On a new manager, when no other config is listed, `AllocateAndAssign` gives a service without a
  -- requested address the lowest address of the config's range, whatever addresses the status of
  -- the config records: for a range whose first end is not above its last, without an IPv6 range,
  -- when the update of the service succeeds.
  pub restart_gives_first :
      (w w' : W) (hc : HeliosConfig) (svc : Service) (configs : List HeliosConfig) (start end : Ip)
      → client.list_configs w ≡ ok configs
      → Own hc configs
      → svc.load_balancer_ip ≡ []
      → parse_ip_range hc.spec.ip_range ≡ ok (start, end)
      → not_above (compare_bytes start end) ≡ true
      → text_eq hc.spec.ipv6_range [] ≡ true
      → assign_ip_to_service client svc (ip_string start) [] w ≡ (ok tt, w')
      → (allocate_and_assign client new_network_manager w hc svc).0 ≡ ok (ip_string start, [])
  unfolding allocate_and_assign with_ipv4 assigned assign_ip_to_service
  restart_gives_first w w' hc svc configs start end l o q p n six done =
      rw
        (
          allocate_and_assign,
          l,
          q,
          no_request,
          mark_others-Own new_network_manager hc configs o,
          first_of new_network_manager hc.spec.ip_range start end p n
              (new_is_empty (ip_string start)) new_has_room,
          six,
          done,
        )
        refl
