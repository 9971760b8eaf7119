-- ===== src/Controller/Manager/Before.antt =====
-- `AllocateAndAssign` (internal/controller/ip_manager.go) against the manager that it is called on,
-- before it marks the addresses of the other configs.
use helios_lb.Prelude.{
  ◌≡◌, ◌⊎◌, inl, inr, false, List, [], ◌∷◌, if-elim, Bool-cases, arith, Text, Dict, Result-cases,
  ok, err,
}
use helios_lb.Network.Allocator.{is_used}
use helios_lb.Network.Allocator.Scan.{is_used-mark_used}
use helios_lb.Network.Allocator.History.{NamesPool}
use helios_lb.Network.Manager.{NetworkManager, manager_mark_used}
use helios_lb.Api.Types.{HeliosConfig}
use helios_lb.Controller.Types.{Service, Client}
use helios_lb.Controller.Manager.{same_config, mark_all, mark_others, Outcome, allocate_and_assign}
use helios_lb.Controller.Manager.Fresh.{Keeps, Grants, Succeeds, allocate_and_assign-Succeeds}

Keeps-trans : (a b c : NetworkManager) → Keeps a b → Keeps b c → Keeps a c
Keeps-trans a b c h k t u = k t (h t u)

Keeps-mark : (nm : NetworkManager) (ip : Text) → Keeps nm (manager_mark_used nm ip)
unfolding manager_mark_used
Keeps-mark nm ip t u = ground (arith, is_used-mark_used nm.ip_allocator ip t)

Keeps-mark_all : (nm : NetworkManager) (m : Dict Text) → Keeps nm (mark_all nm m)
unfolding mark_all
Keeps-mark_all nm [] t u = u
Keeps-mark_all nm ((service, ip) ∷ m) t u =
    Keeps-mark_all (manager_mark_used nm ip) m t (Keeps-mark nm ip t u)

Keeps-mark_others :
    (nm : NetworkManager) (hc : HeliosConfig) (cs : List HeliosConfig)
    → Keeps nm (mark_others nm hc cs)
unfolding mark_others
Keeps-mark_others nm hc [] = λ t u. u
Keeps-mark_others nm hc (c ∷ cs) =
    let v4 = mark_all nm c.status.allocated_ips in
    let both = mark_all v4 c.status.allocated_ipv6s in
    let marked =
      Keeps-trans nm v4 both (Keeps-mark_all nm c.status.allocated_ips)
        (Keeps-mark_all v4 c.status.allocated_ipv6s) in
    if-elim (Keeps nm) (same_config c hc) _ _ (λ q. Keeps-mark_others nm hc cs)
      (λ q. Keeps-trans nm both _ marked (Keeps-mark_others both hc cs))

was_free_before :
    (nm nm' : NetworkManager) (t : Text)
    → Keeps nm nm'
    → is_used nm'.ip_allocator t ≡ false
    → is_used nm.ip_allocator t ≡ false
was_free_before nm nm' t k f = elim (Bool-cases (is_used nm.ip_allocator t)) [
  | inl u ↦ let c = k t u in cc
  | inr u ↦ u
]

Grants-before :
    (nm nm' nm'' : NetworkManager) (ip ipv6 : Text)
    → Keeps nm nm'
    → Grants nm' ip ipv6 nm''
    → Grants nm ip ipv6 nm''
Grants-before nm nm' nm'' ip ipv6 k (f, u, inl e, h) =
    (was_free_before nm nm' ip k f, u, inl e, Keeps-trans nm nm' nm'' k h)
Grants-before nm nm' nm'' ip ipv6 k (f, u, inr (g, v, d), h) = (
  was_free_before nm nm' ip k f,
  u,
  inr (was_free_before nm nm' ipv6 k g, v, d),
  Keeps-trans nm nm' nm'' k h,
)

module _ {W E : Type 0} (client : Client W E) where
  Succeeds-before :
      (nm nm' : NetworkManager) (o : Outcome client)
      → Keeps nm nm'
      → Succeeds client nm' o
      → Succeeds client nm o
  Succeeds-before nm nm' (ok (ip, ipv6), nm'', w) k g = Grants-before nm nm' nm'' ip ipv6 k g
  Succeeds-before nm nm' (err e, nm'', w) k g = Keeps-trans nm nm' nm'' k g

  -- Whether or not the configs are listed, what `AllocateAndAssign` returns was free before the call,
  -- and what was in use is so afterwards, where the ranges of the config are pools.
  pub allocate_and_assign_before :
      (nm : NetworkManager) (w : W) (hc : HeliosConfig) (svc : Service)
      → NamesPool hc.spec.ip_range
      → (hc.spec.ipv6_range ≡ []) ⊎ NamesPool hc.spec.ipv6_range
      → Succeeds client nm (allocate_and_assign client nm w hc svc)
  unfolding allocate_and_assign
  allocate_and_assign_before nm w hc svc p q = elim (Result-cases (client.list_configs w)) [
    | inl (e, h) ↦ rw (allocate_and_assign, h) (λ t u. u)
    | inr (configs, h) ↦
        Succeeds-before nm (mark_others nm hc configs) _ (Keeps-mark_others nm hc configs)
          (allocate_and_assign-Succeeds client nm w hc svc configs h p q)
  ]
