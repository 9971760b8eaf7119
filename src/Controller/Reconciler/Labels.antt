-- ===== src/Controller/Reconciler/Labels.antt =====
-- The metrics of a reconciliation (internal/controller/heliosconfig_controller.go).
use helios_lb.Prelude.{
  ℕ, refl, Bool, true, false, List, [], ◌∷◌, ◌++◌, if-elim, All, All-append, length, Text, text_eq,
  Dict, Result, ok, err,
}
use helios_lb.Metrics.{
  kind, label_names, record_lb_status, record_ip_allocation, record_reconcile_duration,
  record_requeue_reason, record_ip_pool_utilization,
}
use helios_lb.Metrics.Labels.{Fits}
use helios_lb.Api.Types.{HeliosConfig}
use helios_lb.Controller.Types.{Service, Client, Machinery}
use helios_lb.Controller.Manager.{
  AssignError, Outcome, allocate_and_assign, release_all, check_ip_conflicts, within_quota,
}
use helios_lb.Controller.Reconciler.{
  State, config_finalizer, cleanup_started, emit, send, requeue_reason, reconcile_metrics,
  release_samples, allocation_samples, allocation_event, Reconciled, periodic, allocation_failure,
  status_updated, service_assigned, serve,
}
use helios_lb.Controller.Reconciler.Main.{
  conflict_found, conflicts_checked, services_listed, allocate_services, finalizer_removed,
  handle_deletion, finalizer_present, initialized, finalizer_added, reconcile_config, measured,
  config_read, reconcile,
}

-- All that has been sent is well labelled.
abbrev pub Labelled : {W : Type 0} → State W → Type 0
Labelled st = All Fits st.samples

allocation_Fits : (ip : Text) (b : Bool) → All Fits (record_ip_allocation ip b)
unfolding record_ip_allocation kind label_names
allocation_Fits ip b = ((refl, refl), tt)

allocation_samples-Fits : (ip ipv6 : Text) → All Fits (allocation_samples ip ipv6)
unfolding allocation_samples
allocation_samples-Fits ip ipv6 =
    All-append _ _ _ (allocation_Fits ip true)
      (if-elim (All Fits) (text_eq ipv6 []) _ _ (λ q. tt) (λ q. allocation_Fits ipv6 true))

release_samples-Fits : (m : Dict Text) → All Fits (release_samples m)
unfolding release_samples
release_samples-Fits [] = tt
release_samples-Fits ((service, ip) ∷ m) =
    All-append _ _ _ (allocation_Fits ip false) (release_samples-Fits m)

requeue_Fits : (name namespace s : Text) → All Fits (record_requeue_reason name namespace s)
unfolding record_requeue_reason kind label_names
requeue_Fits name namespace s = ((refl, refl), tt)

module _ {W : Type 0} where
  metrics-Labelled :
      (hc : HeliosConfig) (n : ℕ) (st : State W)
      → Labelled st
      → Labelled (reconcile_metrics hc n st)
  unfolding reconcile_metrics send record_reconcile_duration record_lb_status
      record_ip_pool_utilization kind label_names
  metrics-Labelled hc n st l =
      All-append _ _ _ l ((refl, refl), ((refl, refl), ((refl, refl), ((refl, refl), tt))))

module _ {W E : Type 0} (client : Client W E) (k : Machinery) (cause : AssignError E → Text) where
  abbrev Clean : Reconciled client k cause → Type 0
  Clean (r, hc, st) = Labelled st

  status_updated-Clean :
      (next : HeliosConfig → State W → Reconciled client k cause)
      → ((d : HeliosConfig) (s : State W) → Labelled s → Clean (next d s))
      → (hc : HeliosConfig) (st : State W) (r : Result E HeliosConfig × W) → Labelled st
      → Clean (status_updated client k cause next hc st r)
  unfolding status_updated
  status_updated-Clean next keeps hc st (err e, w) l = l
  status_updated-Clean next keeps hc st (ok d, w) l = keeps d (record st { world = w }) l

  assigned-Clean :
      (next : HeliosConfig → State W → Reconciled client k cause)
      → ((d : HeliosConfig) (s : State W) → Labelled s → Clean (next d s))
      → (svc : Service) (hc : HeliosConfig) (st : State W) (o : Outcome client) → Labelled st
      → Clean (service_assigned client k cause next svc hc st o)
  unfolding service_assigned allocation_failure emit send requeue_reason
  assigned-Clean next keeps svc hc st (err e, nm, w) l = All-append _ _ _ l (requeue_Fits _ _ _)
  assigned-Clean next keeps svc hc st (ok (ip, ipv6), nm, w) l =
      status_updated-Clean next keeps _
        (emit (allocation_event svc ip ipv6)
          (send (allocation_samples ip ipv6) (record st { manager = nm; world = w })))
        _ (All-append _ _ _ l (allocation_samples-Fits ip ipv6))

  serve-Clean :
      (services : List Service) (hc : HeliosConfig) (st : State W)
      → Labelled st
      → Clean (serve client k cause services hc st)
  unfolding serve periodic emit requeue_reason send
  serve-Clean [] hc st l = All-append _ _ _ l (requeue_Fits _ _ _)
  serve-Clean (svc ∷ more) hc st l =
      if-elim Clean (within_quota hc) _ _
        (λ q.
          assigned-Clean (serve client k cause more) (λ d s. serve-Clean more d s) svc hc st
            (allocate_and_assign client st.manager st.world hc svc) l)
        (λ q. All-append _ _ _ l (requeue_Fits _ _ _))

  checked-Clean :
      (services : List Service) (hc : HeliosConfig) (st : State W) (r : Result E (Dict Text))
      → Labelled st
      → Clean (conflicts_checked client k cause services hc st r)
  unfolding conflicts_checked conflict_found emit requeue_reason send
  checked-Clean services hc st (err e) l = l
  checked-Clean services hc st (ok []) l = serve-Clean services hc st l
  checked-Clean services hc st (ok (c ∷ cs)) l = All-append _ _ _ l (requeue_Fits _ _ _)

  listed-Clean :
      (hc : HeliosConfig) (st : State W) (r : Result E (List Service))
      → Labelled st
      → Clean (services_listed client k cause hc st r)
  unfolding services_listed
  listed-Clean hc st (err e) l = l
  listed-Clean hc st (ok services) l =
      checked-Clean _ hc st (check_ip_conflicts client st.world hc) l

  removed-Clean :
      (hc : HeliosConfig) (st : State W) (r : Result E HeliosConfig × W)
      → Labelled st
      → Clean (finalizer_removed client k cause hc st r)
  unfolding finalizer_removed emit
  removed-Clean hc st (err e, w) l = l
  removed-Clean hc st (ok c, w) l = l

  deletion-Clean :
      (hc : HeliosConfig) (st : State W)
      → Labelled st
      → Clean (handle_deletion client k cause hc st)
  unfolding handle_deletion emit send
  deletion-Clean hc st l =
      let started = emit (cleanup_started (length hc.status.allocated_ips)) st in
      let (nm, w) = release_all client st.manager st.world hc in
      let released =
        send (release_samples hc.status.allocated_ips ++ release_samples hc.status.allocated_ipv6s)
          (record started { manager = nm; world = w }) in
      let removed = k.remove_finalizer hc config_finalizer in
      if-elim Clean (k.contains_finalizer hc config_finalizer) _ _
        (λ q. removed-Clean removed released (client.update_config w removed) (
          All-append _ _ _ l (
            All-append _ _ _ (release_samples-Fits hc.status.allocated_ips)
              (release_samples-Fits hc.status.allocated_ipv6s))))
        (λ q. l)

  present-Clean :
      (hc : HeliosConfig) (st : State W)
      → Labelled st
      → Clean (finalizer_present client k cause hc st)
  unfolding finalizer_present allocate_services
  present-Clean hc st l =
      if-elim Clean hc.deleting _ _ (λ q. deletion-Clean hc st l)
        (λ q. listed-Clean hc st (client.list_services st.world) l)

  initialized-Clean :
      (hc : HeliosConfig) (st : State W) (r : Result E HeliosConfig × W)
      → Labelled st
      → Clean (initialized client k cause hc st r)
  unfolding initialized
  initialized-Clean hc st (err e, w) l = l
  initialized-Clean hc st (ok d, w) l = present-Clean d (record st { world = w }) l

  added-Clean :
      (hc : HeliosConfig) (st : State W) (r : Result E HeliosConfig × W)
      → Labelled st
      → Clean (finalizer_added client k cause hc st r)
  unfolding finalizer_added
  added-Clean hc st (err e, w) l = l
  added-Clean hc st (ok d, w) l = initialized-Clean _ (record st { world = w }) _ l

  reconcile_config-Clean :
      (hc : HeliosConfig) (st : State W)
      → Labelled st
      → Clean (reconcile_config client k cause hc st)
  unfolding reconcile_config
  reconcile_config-Clean hc st l =
      let added = k.add_finalizer hc config_finalizer in
      if-elim Clean (k.contains_finalizer hc config_finalizer) _ _ (λ q. present-Clean hc st l)
        (λ q. added-Clean added st (client.update_config st.world added) l)

  measured-Labelled :
      (n : ℕ) (r : Reconciled client k cause) → Clean r → Labelled (measured client k cause n r).1
  unfolding measured
  measured-Labelled n (r, hc, st) l = metrics-Labelled hc n st l

  read-Labelled :
      (n : ℕ) (st : State W) (r : Result E HeliosConfig)
      → Labelled st
      → Labelled (config_read client k cause n st r).1
  unfolding config_read
  read-Labelled n st (err e) l = l
  read-Labelled n st (ok hc) l =
      measured-Labelled n (reconcile_config client k cause hc st) (reconcile_config-Clean hc st l)

  -- Whatever a reconciliation does, each call that it makes on a metric, besides those made before,
  -- is a call that this kind of metric has, with one value for each of the metric's labels.
  pub reconcile-Labelled :
      (duration : ℕ) (namespace name : Text) (st : State W)
      → Labelled st
      → Labelled (reconcile client k cause duration namespace name st).1
  unfolding reconcile
  reconcile-Labelled duration namespace name st l =
      read-Labelled duration st (client.get_config st.world namespace name) l
