-- ===== src/Controller/Reconciler/Namesakes.antt =====
-- Two services of one name in a config (internal/controller/heliosconfig_controller.go), up to its
-- deletion.
use helios_lb.Prelude.{
  ◌≡◌, refl, ◌∙◌, true, false, [], ◌∷◌, arith, Text, text_eq, text_eq_refl, Dict, insert,
}
use helios_lb.Network.Allocator.{is_used}
use helios_lb.Network.Manager.{NetworkManager}
use helios_lb.Api.Types.{HeliosConfig}
use helios_lb.Controller.Types.{Service, Client}
use helios_lb.Controller.Manager.{release_all}
use helios_lb.Controller.Manager.Deletion.{is_value, release_all-is_used}
use helios_lb.Controller.Reconciler.{record_allocation}

insert-insert : (k v w : Text) (m : Dict Text) → insert k w (insert k v m) ≡ insert k w m
unfolding insert
insert-insert k v w [] = rw (text_eq_refl k) refl
insert-insert k v w ((j, x) ∷ m) = ground (arith, text_eq_refl k, insert-insert k v w m)

is_value-insert :
    (t k v : Text) (m : Dict Text)
    → text_eq v t ≡ false
    → is_value t m ≡ false
    → is_value t (insert k v m) ≡ false
unfolding insert is_value
is_value-insert t k v [] n h = ground (arith, n)
is_value-insert t k v ((j, x) ∷ m) n h = ground (arith, n, h, is_value-insert t k v m n)

module _ {W E : Type 0} (client : Client W E) where
  -- When two services of one name have got different IPv4 addresses from a config that recorded the
  -- first of them nowhere, `ReleaseAll` leaves that address in use.
  pub namesake_leaks :
      (nm : NetworkManager) (w : W) (hc : HeliosConfig) (svc svc' : Service) (ip ip' : Text)
      → svc.name ≡ svc'.name
      → text_eq ip' ip ≡ false
      → is_value ip hc.status.allocated_ips ≡ false
      → is_value ip hc.status.allocated_ipv6s ≡ false
      → is_used nm.ip_allocator ip ≡ true
      → is_used
          (release_all client nm w (record hc {
            status = record_allocation (record_allocation hc.status svc ip []) svc' ip' [];
          })).0.ip_allocator
          ip
        ≡ true
  unfolding record_allocation text_eq
  namesake_leaks nm w hc svc svc' ip ip' same n v4 v6 u =
      let m = hc.status.allocated_ips in
      let gone : is_value ip (insert svc'.name ip' (insert svc.name ip m)) ≡ false =
        rw (same, insert-insert svc'.name ip ip' m) (is_value-insert ip svc'.name ip' m n v4) in
      release_all-is_used client nm w _ ip ∙ rw (gone, v6) u
