-- ===== src/Controller/Reconciler/Runs.antt =====
-- How a reconciliation of a config that is not deleted ends
-- (internal/controller/heliosconfig_controller.go).
use helios_lb.Prelude.{
  ◌≡◌, refl, sym, ◌∙◌, ap, subst, true, false, List, [], ◌∷◌, ◌⊎◌, inl, inr, if-true, if-false, ◌≢◌,
  Text, Dict, Result, ok, err,
}
use helios_lb.Prelude.Int.{pos, ltb_ℤ}
use helios_lb.Network.Manager.{NetworkManager}
use helios_lb.Api.Types.{HeliosConfig, state_failed}
use helios_lb.Controller.Types.{Service, Client, Machinery}
use helios_lb.Controller.Filter.{filter_eligible_services}
use helios_lb.Controller.Manager.{
  AssignError, Outcome, allocate_and_assign, within_quota, check_ip_conflicts,
}
use helios_lb.Controller.Reconciler.{
  State, config_finalizer, seconds, emit, send, allocation_event, allocation_samples, Reconciled,
  set_condition, succeeded_status, failed_status, record_allocation, periodic, allocation_failure,
  status_updated, service_assigned, serve,
}
use helios_lb.Controller.Reconciler.Main.{
  conflict_found, conflicts_checked, services_listed, allocate_services, finalizer_present,
  reconcile_config,
}
use helios_lb.Controller.Reconciler.Laws.{SameConfig, ReturnsSent}
use helios_lb.Controller.Reconciler.Entries.{
  Has, insert-Has, Persists, updated-status, serve-Persists,
}

-- The config sets no quota.
abbrev pub Unlimited : HeliosConfig → Type 0
Unlimited hc = ltb_ℤ (pos 0) hc.spec.max_allocations ≡ false

Unlimited-room : (hc : HeliosConfig) → Unlimited hc → within_quota hc ≡ true
unfolding within_quota
Unlimited-room hc u = rw u refl

Unlimited-same : (d c : HeliosConfig) → SameConfig d c → Unlimited c → Unlimited d
Unlimited-same d c (s, t) u = subst (λ x. ltb_ℤ (pos 0) x.max_allocations ≡ false) (sym s) u

-- Each of the services has an entry in the status.
abbrev pub Recorded : List Service → HeliosConfig → Type 0
Recorded [] hc = Unit {0}
Recorded (svc ∷ more) hc = Has svc.name hc.status.allocated_ips × Recorded more hc

module _ {W E : Type 0} (client : Client W E) (k : Machinery) (cause : AssignError E → Text) where
  -- It ends in an error, or with all services recorded, or with a failed status.
  abbrev pub Ends : List Service → Reconciled client k cause → Type 0
  Ends services (err e, hc, st) = Unit {0}
  Ends services (ok n, hc, st) =
      ((n ≡ seconds 5) × Recorded services hc)
      ⊎ ((n ≡ seconds 10) × (hc.status.phase ≡ state_failed))

  failure-Ends :
      (services : List Service)
      → ReturnsSent client
      → (svc : Service) (hc : HeliosConfig) (st : State W) (e : AssignError E)
      → Ends services (allocation_failure client k cause svc hc st e)
  unfolding allocation_failure failed_status set_condition
  failure-Ends services sent svc hc st e = inr (
    refl,
    ap (λ x. x.phase) (updated-status client k cause _ _ (λ d q. sent.status_update _ _ d q)),
  )

  -- The rest of the loop ends well, and keeps what is recorded for the service.
  Ends-cons :
      (svc : Service) (more : List Service) (r : Reconciled client k cause)
      → Persists client k cause svc.name r
      → Ends more r
      → Ends (svc ∷ more) r
  Ends-cons svc more (err e, hc, st) p h = tt
  Ends-cons svc more (ok n, hc, st) p (inl (e, h)) = inl (e, (p, h))
  Ends-cons svc more (ok n, hc, st) p (inr h) = inr h

  status_updated-Ends :
      (svc : Service) (more : List Service)
      (next : HeliosConfig → State W → Reconciled client k cause)
      → ((d : HeliosConfig) (s : State W) → Unlimited d → Ends more (next d s))
      → ((d : HeliosConfig) (s : State W)
          → Has svc.name d.status.allocated_ips
          → Persists client k cause svc.name (next d s))
      → (hc : HeliosConfig) (st : State W) (r : Result E HeliosConfig × W)
      → ((d : HeliosConfig) → r.0 ≡ ok d → SameConfig d hc)
      → Unlimited hc
      → Has svc.name hc.status.allocated_ips
      → Ends (svc ∷ more) (status_updated client k cause next hc st r)
  unfolding status_updated
  status_updated-Ends svc more next ends keeps hc st (err e, w) s u h = tt
  status_updated-Ends svc more next ends keeps hc st (ok d, w) s u h =
      let st' : State W = record st { world = w } in
      Ends-cons svc more (next d st')
        (keeps d st' (subst (λ x. Has svc.name x.allocated_ips) (sym (s d refl).1) h))
        (ends d st' (Unlimited-same d hc (s d refl) u))

  assigned-Ends :
      (svc : Service) (more : List Service)
      → ReturnsSent client
      → (next : HeliosConfig → State W → Reconciled client k cause)
      → ((d : HeliosConfig) (s : State W) → Unlimited d → Ends more (next d s))
      → ((d : HeliosConfig) (s : State W)
          → Has svc.name d.status.allocated_ips
          → Persists client k cause svc.name (next d s))
      → (hc : HeliosConfig) (st : State W) (o : Outcome client) → Unlimited hc
      → Ends (svc ∷ more) (service_assigned client k cause next svc hc st o)
  unfolding service_assigned succeeded_status set_condition record_allocation
  assigned-Ends svc more sent next ends keeps hc st (err e, nm, w) u =
      failure-Ends (svc ∷ more) sent svc hc (record st { manager = nm; world = w }) e
  assigned-Ends svc more sent next ends keeps hc st (ok (ip, ipv6), nm, w) u =
      status_updated-Ends svc more next ends keeps _
        (emit (allocation_event svc ip ipv6)
          (send (allocation_samples ip ipv6) (record st { manager = nm; world = w })))
        _ (λ d q. sent.status_update _ _ d q) u (insert-Has svc.name ip hc.status.allocated_ips)

  serve-Ends :
      ReturnsSent client
      → (services : List Service) (hc : HeliosConfig) (st : State W) → Unlimited hc
      → Ends services (serve client k cause services hc st)
  unfolding serve periodic
  serve-Ends sent [] hc st u = inl (refl, tt)
  serve-Ends sent (svc ∷ more) hc st u = rw (Unlimited-room hc u) (
      assigned-Ends svc more sent (serve client k cause more) (λ d s. serve-Ends sent more d s)
        (λ d s. serve-Persists client k cause svc.name sent more d s) hc st
        (allocate_and_assign client st.manager st.world hc svc) u)

  -- It pauses for half a minute, with the manager `nm` as it was, since there are conflicts.
  abbrev pub Pauses : NetworkManager → Result E (Dict Text) → Reconciled client k cause → Type 0
  Pauses nm conflicts (r, hc, st) = (r ≡ ok (seconds 30)) × (st.manager ≡ nm) × (conflicts ≢ ok [])

  checked-Ends :
      ReturnsSent client
      → (services : List Service) (hc : HeliosConfig) (st : State W)
        (conflicts : Result E (Dict Text))
      → Unlimited hc
      → let r = conflicts_checked client k cause services hc st conflicts in
        Ends services r ⊎ Pauses st.manager conflicts r
  unfolding conflicts_checked conflict_found
  checked-Ends sent services hc st (err e) u = inl tt
  checked-Ends sent services hc st (ok []) u = inl (serve-Ends sent services hc st u)
  checked-Ends sent services hc st (ok (c ∷ cs)) u = inr (refl, refl, λ h. cc)

  -- The reconciliation of such a config gets to the check for conflicts.
  pub reaches :
      (hc : HeliosConfig) (st : State W) (services : List Service)
      → k.contains_finalizer hc config_finalizer ≡ true
      → hc.deleting ≡ false
      → client.list_services st.world ≡ ok services
      → reconcile_config client k cause hc st
        ≡ conflicts_checked client k cause
            (filter_eligible_services services hc.spec.namespace_selector hc.spec.ip_range
              hc.spec.ipv6_range)
            hc
            st
            (check_ip_conflicts client st.world hc)
  unfolding reconcile_config finalizer_present allocate_services services_listed
  reaches hc st services f d l =
      if-true _ _ _ f ∙ (if-false _ _ _ d ∙ ap (services_listed client k cause hc st) l)

  -- When the services are listed, the reconciliation of a config without a quota, with the
  -- finalizer and not deleted, returns an error, or asks to be run again: after five seconds, with
  -- an entry in the status for every eligible service; or after ten, with a failed status; or after
  -- thirty, with the allocator as it was, when `CheckIPConflicts` did not find the config free of
  -- conflicts. Updates return a config with the spec and the status that were sent.
  pub reconcile_config-Ends :
      (hc : HeliosConfig) (st : State W) (services : List Service)
      → ReturnsSent client
      → k.contains_finalizer hc config_finalizer ≡ true
      → hc.deleting ≡ false
      → client.list_services st.world ≡ ok services
      → Unlimited hc
      → Ends
          (filter_eligible_services services hc.spec.namespace_selector hc.spec.ip_range
            hc.spec.ipv6_range)
          (reconcile_config client k cause hc st)
        ⊎ Pauses st.manager
            (check_ip_conflicts client st.world hc)
            (reconcile_config client k cause hc st)
  reconcile_config-Ends hc st services sent f d l u =
      let eligible =
        filter_eligible_services services hc.spec.namespace_selector hc.spec.ip_range
          hc.spec.ipv6_range in
      let conflicts = check_ip_conflicts client st.world hc in
      subst (λ r. Ends eligible r ⊎ Pauses st.manager conflicts r)
        (sym (reaches hc st services f d l)) (checked-Ends sent eligible hc st conflicts u)
