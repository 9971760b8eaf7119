-- ===== src/Controller/Manager/Stored.antt =====
-- `assignIPToService` and `AllocateAndAssign` (internal/controller/ip_manager.go): the service that the
-- cluster has behind a success.
use helios_lb.Prelude.{
  ◌⊎◌, ◌≡◌, refl, sym, ◌∙◌, ap, subst, inl, inr, [], if-elim, Text, text_eq, Result, Result-cases,
  ok, err,
}
use helios_lb.Network.Allocator.{AllocError}
use helios_lb.Network.Manager.{NetworkManager}
use helios_lb.Api.Types.{HeliosConfig}
use helios_lb.Controller.Types.{Service, Client}
use helios_lb.Controller.Manager.Services.{
  Attempts, no_attempt, failed_attempt, StoresServices, given, given-given,
}
use helios_lb.Controller.Manager.{
  prepared, update_behind, assign_attempt, assign_ip_to_service, split_requested_ip, allocate,
  mark_others, Outcome, assigned, with_ipv6, with_ipv4, allocate_and_assign,
}

module _ {W E : Type 0} (client : Client W E) (laws : StoresServices client) (ip ipv6 : Text) where
  -- The service as it is stored, under its own names.
  abbrev Holds : W → Service → Type 0
  Holds w s = client.get_service w s.namespace s.name ≡ ok s

  -- What a run leaves of a stored service.
  abbrev Leaves : Service → Result E (Unit {0}) × W → Type 0
  Leaves x (err e, w) = Holds w x ⊎ Holds w (given x ip ipv6)
  Leaves x (ok tt, w) = Holds w (given x ip ipv6)

  given-Leaves :
      (x : Service) (m : Result E (Unit {0}) × W) → Holds m.1 (given x ip ipv6) → Leaves x m
  given-Leaves x (err e, w) h = inr h
  given-Leaves x (ok tt, w) h = h

  update_behind-Holds :
      (w : W) (s : Service) → Holds w s → Holds (update_behind client (ok s, w)).1 s
  unfolding update_behind
  update_behind-Holds w s h = stored (client.update w s) refl
    where
      stored : (m : Result E Service × W) → client.update w s ≡ m → Holds m.1 s
      stored (err e, w2) u = laws.update_failed w w2 s s e h u
      stored (ok s2, w2) u = let (same, q) = laws.update w w2 s s s2 h u in q ∙ ap ok same

  status_behind-Leaves :
      (w : W) (x : Service) (m : Result E Service × W)
      → Holds w x
      → client.update_status w (prepared x ip ipv6) ≡ m
      → Leaves x (update_behind client m)
  unfolding prepared update_behind
  status_behind-Leaves w x (err e, w1) h u =
      inl (laws.status_failed w w1 (prepared x ip ipv6) x e h u)
  status_behind-Leaves w x (ok s, w1) h u =
      let (same, q) = laws.status_update w w1 (prepared x ip ipv6) x s h u in
      subst (λ y. Leaves x (update_behind client (ok y, w1))) (sym same)
        (given-Leaves x (update_behind client (ok (given x ip ipv6), w1))
          (update_behind-Holds w1 (given x ip ipv6) (q ∙ ap ok same)))

  attempt-Leaves :
      (svc : Service) (v : W) (x : Service)
      → svc.namespace ≡ x.namespace
      → svc.name ≡ x.name
      → Holds v x
      → Leaves x (assign_attempt client svc ip ipv6 v)
  unfolding assign_attempt
  attempt-Leaves svc v x ns n h =
      let found : client.get_service v svc.namespace svc.name ≡ ok x =
        ap (client.get_service v svc.namespace) n
        ∙ ap (λ y. client.get_service v y x.name) ns
        ∙ h in
      rw (assign_attempt, found)
        (status_behind-Leaves v x (client.update_status v (prepared x ip ipv6)) h refl)

  -- A run from a state that earlier runs have left.
  run-Leaves :
      (svc : Service) (v : W) (now : Service)
      → svc.namespace ≡ now.namespace
      → svc.name ≡ now.name
      → Holds v now ⊎ Holds v (given now ip ipv6)
      → Leaves now (assign_attempt client svc ip ipv6 v)
  run-Leaves svc v now ns n (inl h) = attempt-Leaves svc v now ns n h
  run-Leaves svc v now ns n (inr h) =
      once_more (assign_attempt client svc ip ipv6 v)
        (attempt-Leaves svc v (given now ip ipv6) ns n h)
    where
      same : (w : W) → Holds w (given (given now ip ipv6) ip ipv6) → Holds w (given now ip ipv6)
      same w q = subst (Holds w) (given-given now ip ipv6) q

      once_more : (m : Result E (Unit {0}) × W) → Leaves (given now ip ipv6) m → Leaves now m
      once_more (err e, w) (inl q) = inr q
      once_more (err e, w) (inr q) = inr (same w q)
      once_more (ok tt, w) q = same w q

  Attempts-Holds :
      (svc : Service) (w v : W) (now : Service)
      → svc.namespace ≡ now.namespace
      → svc.name ≡ now.name
      → Holds w now
      → Attempts (assign_attempt client svc ip ipv6) w v
      → Holds v now ⊎ Holds v (given now ip ipv6)
  Attempts-Holds svc w v now ns n h no_attempt = inl h
  Attempts-Holds svc w v now ns n h (failed_attempt u _ e r q) =
      subst (Leaves now) q (run-Leaves svc u now ns n (Attempts-Holds svc w u now ns n h r))

  assign-stores :
      (svc now : Service) (w w' : W)
      → client.get_service w svc.namespace svc.name ≡ ok now
      → assign_ip_to_service client svc ip ipv6 w ≡ (ok tt, w')
      → client.get_service w' svc.namespace svc.name ≡ ok (given now ip ipv6)
  unfolding assign_ip_to_service
  assign-stores svc now w w' h q =
      let (ns, n) = laws.named w svc.namespace svc.name now h in
      let held : Holds w now =
        ap (client.get_service w now.namespace) n
        ∙ ap (λ x. client.get_service w x svc.name) ns
        ∙ h in
      let (v, tries, r) = laws.retry (assign_attempt client svc ip ipv6) w w' q in
      let stored : Holds w' (given now ip ipv6) = subst (Leaves now) r (
        run-Leaves svc v now (sym ns) (sym n)
          (Attempts-Holds svc w v now (sym ns) (sym n) held tries)) in
      ap (client.get_service w' svc.namespace) (sym n)
      ∙ ap (λ x. client.get_service w' x now.name) (sym ns)
      ∙ stored

module _ {W E : Type 0} (client : Client W E) where
  -- A success has stored the service, which was `now`, with the addresses that it returns.
  abbrev pub Stores : Service → Service → Outcome client → Type 0
  Stores svc now (ok (ip, ipv6), nm, w') =
      client.get_service w' svc.namespace svc.name ≡ ok (given now ip ipv6)
  Stores svc now (err e, nm, w') = Unit {0}

  module _ (laws : StoresServices client) (svc now : Service) (w : W)
      (h : client.get_service w svc.namespace svc.name ≡ ok now) where
    assigned-Stores :
        (ip ipv6 : Text) (nm : NetworkManager) (m : Result E (Unit {0}) × W)
        → assign_ip_to_service client svc ip ipv6 w ≡ m
        → Stores svc now (assigned client ip ipv6 nm m)
    unfolding assigned
    assigned-Stores ip ipv6 nm (err e, w') q = tt
    assigned-Stores ip ipv6 nm (ok tt, w') q = assign-stores client laws ip ipv6 svc now w w' h q

    with_ipv6-Stores :
        (ip : Text) (m : Result AllocError Text × NetworkManager)
        → Stores svc now (with_ipv6 client svc ip w m)
    unfolding with_ipv6
    with_ipv6-Stores ip (err e, nm) = tt
    with_ipv6-Stores ip (ok ipv6, nm) = assigned-Stores ip ipv6 nm _ refl

    with_ipv4-Stores :
        (hc : HeliosConfig) (q : Text) (m : Result AllocError Text × NetworkManager)
        → Stores svc now (with_ipv4 client hc svc q w m)
    unfolding with_ipv4
    with_ipv4-Stores hc q (err e, nm) = tt
    with_ipv4-Stores hc q (ok ip, nm) =
        if-elim (Stores svc now) (text_eq hc.spec.ipv6_range []) _ _
          (λ z. assigned-Stores ip [] nm _ refl)
          (λ z. with_ipv6-Stores ip (allocate nm hc.spec.ipv6_range q))

  -- When the cluster has the service before a successful `AllocateAndAssign`, it has the same service
  -- behind it, with the annotation and with the addresses that it returns, and with everything else,
  -- the class of the load balancer among it, as it was before; where no one else writes the service
  -- meanwhile, a service is read under its names, an update of the status stores the metadata and the
  -- status that are sent and leaves the spec, an update leaves the status, both return what is stored,
  -- one that fails stores nothing, and a retry that succeeds ends with a run that does, behind runs
  -- that fail.
  pub allocate_and_assign-Stores :
      StoresServices client
      → (nm : NetworkManager) (w : W) (hc : HeliosConfig) (svc now : Service)
      → client.get_service w svc.namespace svc.name ≡ ok now
      → Stores svc now (allocate_and_assign client nm w hc svc)
  unfolding allocate_and_assign
  allocate_and_assign-Stores laws nm w hc svc now q = elim (Result-cases (client.list_configs w)) [
    | inl (e, h) ↦ rw (allocate_and_assign, h) tt
    | inr (configs, h) ↦
        let (v4, v6) = split_requested_ip svc.load_balancer_ip in
        rw (allocate_and_assign, h)
          (with_ipv4-Stores laws svc now w q hc v6
            (allocate (mark_others nm hc configs) hc.spec.ip_range v4))
  ]
