-- ===== src/Controller/Manager/Conflicts.antt =====
-- `CheckIPConflicts` (internal/controller/ip_manager.go): when it finds nothing.
use helios_lb.Prelude.{
  ◌≡◌, refl, false, List, [], ◌∷◌, ◌++◌, ◌↔◌, ◌⊎◌, Text, codes, Dict, insert, text_eq_iff, arith,
  ok, ok-injective, ap,
}
use mathlib.Core.Logic.{◌≢◌}
use helios_lb.Network.Allocator.{ip_in_range}
use helios_lb.Api.Types.{HeliosConfig}
use helios_lb.Controller.Manager.{same_config, conflicts_of, conflicts_from, check_ip_conflicts}
use helios_lb.Controller.Types.{Client}

-- No address of the map lies in the range.
abbrev pub NoneIn : Text → Dict Text → Type 0
NoneIn ip_range [] = Unit {0}
NoneIn ip_range ((service, ip) ∷ m) = (ip_in_range ip ip_range ≡ false) × NoneIn ip_range m

-- The config has both names of `hc`.
abbrev pub HasNamesOf : HeliosConfig → HeliosConfig → Type 0
HasNamesOf hc c = (c.name ≡ hc.name) × (c.namespace ≡ hc.namespace)

-- Every config of the list of another name or namespace records no address of its first map in the
-- first range of `hc`, nor one of its second map in the second range.
abbrev pub Clear : HeliosConfig → List HeliosConfig → Type 0
Clear hc [] = Unit {0}
Clear hc (c ∷ cs) =
    (HasNamesOf hc c
      ⊎ (NoneIn hc.spec.ip_range c.status.allocated_ips
          × ((hc.spec.ipv6_range ≡ []) ⊎ NoneIn hc.spec.ipv6_range c.status.allocated_ipv6s)))
    × Clear hc cs

insert-not_empty : (k v : Text) (m : Dict Text) → insert k v m ≢ []
unfolding insert
insert-not_empty k v [] h = cc
insert-not_empty k v ((j, w) ∷ m) h = ground arith

-- The map holds a conflict, or no address of the map lies in the range.
conflicts_of-none :
    (c : HeliosConfig) (r n : Text) (m x : Dict Text)
    → (conflicts_of c r n m x ≡ []) ↔ ((x ≡ []) × NoneIn r m)
unfolding conflicts_of
conflicts_of-none c r n [] x = (λ h. (h, tt), λ (h, u). h)
conflicts_of-none c r n ((service, ip) ∷ m) x =
    let owner = c.namespace ++ (codes "/" ++ (c.name ++ (codes " (svc: " ++ (service ++ n)))) in
    ground (
      arith,
      insert-not_empty ip owner x,
      conflicts_of-none c r n m x,
      conflicts_of-none c r n m (insert ip owner x),
    )

conflicts_from-none :
    (hc : HeliosConfig) (cs : List HeliosConfig) (x : Dict Text)
    → (conflicts_from hc cs x ≡ []) ↔ ((x ≡ []) × Clear hc cs)
unfolding conflicts_from same_config
conflicts_from-none hc [] x = (λ h. (h, tt), λ (h, u). h)
conflicts_from-none hc (c ∷ cs) x =
    let v4 = conflicts_of c hc.spec.ip_range (codes ")") c.status.allocated_ips x in
    let v6 = conflicts_of c hc.spec.ipv6_range (codes ", ipv6)") c.status.allocated_ipv6s v4 in
    ground (
      arith,
      text_eq_iff c.name hc.name,
      text_eq_iff c.namespace hc.namespace,
      text_eq_iff hc.spec.ipv6_range [],
      conflicts_of-none c hc.spec.ip_range (codes ")") c.status.allocated_ips x,
      conflicts_of-none c hc.spec.ipv6_range (codes ", ipv6)") c.status.allocated_ipv6s v4,
      conflicts_from-none hc cs x,
      conflicts_from-none hc cs v4,
      conflicts_from-none hc cs v6,
    )

module _ {W E : Type 0} (client : Client W E) where
  -- When the configs are listed, `CheckIPConflicts` finds nothing exactly when every config of another
  -- name or another namespace records in `AllocatedIPs` no address of the config's `IPRange`, and, where
  -- the config has an `IPv6Range`, in `AllocatedIPv6s` none of that; the first map is not compared with
  -- the second range, nor the second map with the first range.
  pub check_ip_conflicts_iff :
      (w : W) (hc : HeliosConfig) (configs : List HeliosConfig)
      → client.list_configs w ≡ ok configs
      → (check_ip_conflicts client w hc ≡ ok []) ↔ Clear hc configs
  unfolding check_ip_conflicts
  check_ip_conflicts_iff w hc configs e =
      rw (check_ip_conflicts, e)
        (
          λ h. ((conflicts_from-none hc configs []).0 (ok-injective _ _ h)).1,
          λ h. ap ok ((conflicts_from-none hc configs []).1 (refl, h)),
        )
