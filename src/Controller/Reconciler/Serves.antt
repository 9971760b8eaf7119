-- ===== src/Controller/Reconciler/Serves.antt =====
-- When a reconciliation gives an address to a service
-- (internal/controller/heliosconfig_controller.go).
use helios_lb.Prelude.{
  append_assoc, append-nil, ap, ◌∙◌, ◌≡◌, sym, subst, true, false, List, [], ◌∷◌, ◌++◌, if-elim,
  if-true, Text, text_eq, Result, ok, err,
}
use helios_lb.Network.Allocator.{is_used}
use helios_lb.Network.Manager.{NetworkManager}
use helios_lb.Api.Types.{HeliosConfig}
use helios_lb.Controller.Types.{Service, Client, Machinery}
use helios_lb.Controller.Filter.{filter_eligible_services}
use helios_lb.Controller.Manager.{
  AssignError, Outcome, mark_others, assign_ip_to_service, allocate_and_assign, within_quota,
  check_ip_conflicts,
}
use helios_lb.Controller.Manager.Gives.{HasRoom, allocate_and_assign_gives}
use helios_lb.Controller.Reconciler.{
  Event, ip_allocated, State, config_finalizer, allocation_event, allocation_samples, emit, send,
  requeue_reason, Reconciled, periodic, allocation_failure, status_updated, service_assigned, serve,
}
use helios_lb.Controller.Reconciler.Main.{conflicts_checked, reconcile_config}
use helios_lb.Controller.Reconciler.Runs.{reaches}

-- The events go on from these.
abbrev pub GoesOn : List Event → List Event → Type 0
GoesOn es es' = (later : List Event) × (es' ≡ es ++ later)

GoesOn-event : (es es' : List Event) (e : Event) → GoesOn es es' → GoesOn es (es' ++ e ∷ [])
GoesOn-event es es' e (later, q) =
    (later ++ e ∷ [], ap (λ x. x ++ e ∷ []) q ∙ append_assoc es later (e ∷ []))

module _ {W E : Type 0} (client : Client W E) (k : Machinery) (cause : AssignError E → Text)
    (es : List Event) where
  abbrev pub Continues : Reconciled client k cause → Type 0
  Continues (r, hc, st) = GoesOn es st.events

  abbrev Grows : (HeliosConfig → State W → Reconciled client k cause) → Type 0
  Grows next = (d : HeliosConfig) (s : State W) → GoesOn es s.events → Continues (next d s)

  pub status_updated-Continues :
      (next : HeliosConfig → State W → Reconciled client k cause)
      → Grows next
      → (hc : HeliosConfig) (st : State W) (r : Result E HeliosConfig × W) → GoesOn es st.events
      → Continues (status_updated client k cause next hc st r)
  unfolding status_updated
  status_updated-Continues next grows hc st (err e, w) h = h
  status_updated-Continues next grows hc st (ok d, w) h = grows d (record st { world = w }) h

  assigned-Continues :
      (next : HeliosConfig → State W → Reconciled client k cause)
      → Grows next
      → (svc : Service) (hc : HeliosConfig) (st : State W) (o : Outcome client)
      → GoesOn es st.events
      → Continues (service_assigned client k cause next svc hc st o)
  unfolding service_assigned allocation_failure emit send requeue_reason
  assigned-Continues next grows svc hc st (err e, nm, w) h = GoesOn-event es st.events _ h
  assigned-Continues next grows svc hc st (ok (ip, ipv6), nm, w) h =
      status_updated-Continues next grows _
        (emit (allocation_event svc ip ipv6)
          (send (allocation_samples ip ipv6) (record st { manager = nm; world = w })))
        _ (GoesOn-event es st.events _ h)

  pub serve-Continues : (services : List Service) → Grows (serve client k cause services)
  unfolding serve periodic emit requeue_reason send
  serve-Continues [] hc st h = h
  serve-Continues (svc ∷ more) hc st h =
      if-elim Continues (within_quota hc) _ _
        (λ q.
          assigned-Continues (serve client k cause more) (serve-Continues more) svc hc st
            (allocate_and_assign client st.manager st.world hc svc) h)
        (λ q. GoesOn-event es st.events _ h)

module _ {W E : Type 0} (client : Client W E) (k : Machinery) (cause : AssignError E → Text) where
  -- The events before, the one of the service with the address, and others.
  gives_to :
      (svc : Service) (more : List Service) (hc : HeliosConfig) (st : State W) (s : Text)
      (nm : NetworkManager) (w : W)
      → Continues client k cause (st.events ++ ip_allocated s svc.namespace svc.name ∷ []) (
          service_assigned client k cause (serve client k cause more) svc hc st (ok (s, []), nm, w))
  unfolding service_assigned emit send allocation_event text_eq
  gives_to svc more hc st s nm w =
      let es = st.events ++ ip_allocated s svc.namespace svc.name ∷ [] in
      status_updated-Continues client k cause es (serve client k cause more)
        (serve-Continues client k cause es more) _
        (emit (allocation_event svc s [])
          (send (allocation_samples s []) (record st { manager = nm; world = w })))
        _ ([], sym (append-nil es))

  -- The config is live, its checks are passed, and the first eligible service is `svc`.
  pub record Ready (hc : HeliosConfig) (st : State W) (svc : Service) : Type 0 where
    pub finalizer : k.contains_finalizer hc config_finalizer ≡ true
    pub live : hc.deleting ≡ false
    pub services : List Service
    pub listed : client.list_services st.world ≡ ok services
    pub more : List Service
    pub first :
        filter_eligible_services services hc.spec.namespace_selector hc.spec.ip_range
          hc.spec.ipv6_range
        ≡ svc ∷ more
    pub no_conflict : check_ip_conflicts client st.world hc ≡ ok []
    pub in_quota : within_quota hc ≡ true

  -- The reconciliation of a config with the finalizer, which is not deleted, without conflicts and
  -- within its quota, gives an address to the first service that the filter keeps: behind the events
  -- before comes the one which says that the address was allocated to the service of this name and
  -- namespace, whatever happens to the others and to the status of the config. The address was free,
  -- where the service requests none, the config has no IPv6 range, every update of the service
  -- succeeds, and the range is of several addresses of one family, ends before the last address of
  -- the family and has a free address, once those of the other configs are marked, among the first
  -- that the scan tries.
  pub reconcile_config_serves :
      (hc : HeliosConfig) (st : State W) (svc : Service) (configs : List HeliosConfig)
      → Ready hc st svc
      → client.list_configs st.world ≡ ok configs
      → svc.load_balancer_ip ≡ []
      → text_eq hc.spec.ipv6_range [] ≡ true
      → HasRoom (mark_others st.manager hc configs).ip_allocator hc.spec.ip_range
      → ((ip : Text) → (w' : W) × (assign_ip_to_service client svc ip [] st.world ≡ (ok tt, w')))
      → (s : Text) × (is_used (mark_others st.manager hc configs).ip_allocator s ≡ false)
        × Continues client k cause
            (st.events ++ ip_allocated s svc.namespace svc.name ∷ [])
            (reconcile_config client k cause hc st)
  unfolding conflicts_checked serve
  reconcile_config_serves hc st svc configs r l q six room done =
      let (s, nm, w, given, free, used) =
        allocate_and_assign_gives client st.manager st.world hc svc configs l q six room done in
      let Gives : Reconciled client k cause → Type 0 =
        Continues client k cause (st.events ++ ip_allocated s svc.namespace svc.name ∷ []) in
      let served : Gives (serve client k cause (svc ∷ r.more) hc st) =
        subst Gives (sym (if-true _ _ _ r.in_quota)) (
          subst
            (λ o. Gives (service_assigned client k cause (serve client k cause r.more) svc hc st o))
            (sym given) (gives_to svc r.more hc st s nm w)) in
      let eligible =
        filter_eligible_services r.services hc.spec.namespace_selector hc.spec.ip_range
          hc.spec.ipv6_range in
      let checked : Gives (
          conflicts_checked client k cause eligible hc st (check_ip_conflicts client st.world hc)) =
        subst (λ c. Gives (conflicts_checked client k cause eligible hc st c)) (sym r.no_conflict)
          (subst (λ x. Gives (serve client k cause x hc st)) (sym r.first) served) in
      (
        s,
        free,
        subst Gives (sym (reaches client k cause hc st r.services r.finalizer r.live r.listed))
            checked,
      )
