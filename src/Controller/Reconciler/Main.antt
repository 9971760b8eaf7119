-- ===== src/Controller/Reconciler/Main.antt =====
-- `Reconcile` and `handleDeletion` (internal/controller/heliosconfig_controller.go).
use helios_lb.Prelude.{
  ℕ, true, false, List, [], ◌∷◌, ◌++◌, if◌then◌else◌, length, Text, codes, itoa, Dict, Result, ok,
  err,
}
use helios_lb.Api.Types.{
  HeliosConfig, condition_type_ready, condition_type_degraded, reason_initializing,
  reason_ip_conflict,
}
use helios_lb.Controller.Types.{Service, Client, Machinery}
use helios_lb.Controller.Filter.{filter_eligible_services}
use helios_lb.Controller.Manager.{AssignError, release_all, check_ip_conflicts}
use helios_lb.Controller.Reconciler.{
  ip_conflict, cleanup_started, cleanup_failed, cleanup_complete, State, config_finalizer, seconds,
  emit, send, requeue_reason, reconcile_metrics, release_samples, updated, Reconciled,
  set_condition, serve,
}

module _ {W E : Type 0} (client : Client W E) (k : Machinery) (cause : AssignError E → Text) where
  unfoldable pub conflict_found : HeliosConfig → State W → ℕ → Reconciled client k cause
  unfolding emit requeue_reason set_condition
  conflict_found hc st n =
      let message =
        codes "IP range conflicts with "
        ++ (itoa n ++ codes " allocated IP(s) from other configs") in
      let degraded = record hc {
        status =
            set_condition client k cause hc.status hc.generation condition_type_degraded true
              reason_ip_conflict message;
      } in
      let (r, w) = client.update_config_status st.world degraded in
      (
        ok (seconds 30),
        updated degraded r,
        requeue_reason (updated degraded r) (codes "ip_conflict")
            (record (emit (ip_conflict n) st) { world = w }),
      )

  -- Behind the check for conflicts.
  unfoldable pub conflicts_checked :
      List Service → HeliosConfig → State W → Result E (Dict Text) → Reconciled client k cause
  conflicts_checked eligible hc st (err e) = (err e, hc, st)
  conflicts_checked eligible hc st (ok []) = serve client k cause eligible hc st
  conflicts_checked eligible hc st (ok (c ∷ cs)) = conflict_found hc st (length (c ∷ cs))

  -- Behind the list of the services.
  unfoldable pub services_listed :
      HeliosConfig → State W → Result E (List Service) → Reconciled client k cause
  unfolding conflicts_checked
  services_listed hc st (err e) = (err e, hc, st)
  services_listed hc st (ok services) =
      conflicts_checked
        (filter_eligible_services services hc.spec.namespace_selector hc.spec.ip_range
          hc.spec.ipv6_range)
        hc st (check_ip_conflicts client st.world hc)

  unfoldable pub allocate_services : HeliosConfig → State W → Reconciled client k cause
  unfolding services_listed
  allocate_services hc st = services_listed hc st (client.list_services st.world)

  -- Behind the update that removes the finalizer.
  unfoldable pub finalizer_removed :
      HeliosConfig → State W → Result E HeliosConfig × W → Reconciled client k cause
  unfolding emit
  finalizer_removed hc st (err e, w) = (err e, hc, emit cleanup_failed (record st { world = w }))
  finalizer_removed hc st (ok c, w) = (ok 0, c, emit cleanup_complete (record st { world = w }))

  unfoldable pub handle_deletion : HeliosConfig → State W → Reconciled client k cause
  unfolding finalizer_removed emit send release_samples
  handle_deletion hc st =
      let started = emit (cleanup_started (length hc.status.allocated_ips)) st in
      let (nm, w) = release_all client st.manager st.world hc in
      let released =
        send (release_samples hc.status.allocated_ips ++ release_samples hc.status.allocated_ipv6s)
          (record started { manager = nm; world = w }) in
      let removed = k.remove_finalizer hc config_finalizer in
      let cleaned = finalizer_removed removed released (client.update_config w removed) in
      if k.contains_finalizer hc config_finalizer then cleaned else (ok 0, hc, st)

  unfoldable pub finalizer_present : HeliosConfig → State W → Reconciled client k cause
  unfolding handle_deletion allocate_services
  finalizer_present hc st = if hc.deleting then handle_deletion hc st else allocate_services hc st

  -- Behind the status update of the initial condition.
  unfoldable pub initialized :
      HeliosConfig → State W → Result E HeliosConfig × W → Reconciled client k cause
  unfolding finalizer_present
  initialized hc st (err e, w) = (err e, hc, record st { world = w })
  initialized hc st (ok c, w) = finalizer_present c (record st { world = w })

  -- Behind the update that adds the finalizer.
  unfoldable pub finalizer_added :
      HeliosConfig → State W → Result E HeliosConfig × W → Reconciled client k cause
  unfolding initialized set_condition
  finalizer_added hc st (err e, w) = (err e, hc, record st { world = w })
  finalizer_added hc st (ok c, w) =
      let initial = record c {
        status =
            set_condition client k cause c.status c.generation condition_type_ready false
              reason_initializing (codes "HeliosConfig is initializing");
      } in
      initialized initial (record st { world = w }) (client.update_config_status w initial)

  unfoldable pub reconcile_config : HeliosConfig → State W → Reconciled client k cause
  unfolding finalizer_added finalizer_present
  reconcile_config hc st =
      let added = k.add_finalizer hc config_finalizer in
      if k.contains_finalizer hc config_finalizer
      then finalizer_present hc st
      else finalizer_added added st (client.update_config st.world added)

  -- The deferred metrics behind what a reconciliation returned.
  unfoldable pub measured : ℕ → Reconciled client k cause → Result E ℕ × State W
  unfolding reconcile_metrics
  measured duration (r, hc, st) = (r, reconcile_metrics hc duration st)

  -- Behind the read of the config.
  unfoldable pub config_read : ℕ → State W → Result E HeliosConfig → Result E ℕ × State W
  unfolding measured reconcile_config
  config_read duration st (err e) = (if client.is_not_found e then ok 0 else err e, st)
  config_read duration st (ok hc) = measured duration (reconcile_config hc st)

  unfoldable pub reconcile : ℕ → Text → Text → State W → Result E ℕ × State W
  unfolding config_read
  reconcile duration namespace name st =
      config_read duration st (client.get_config st.world namespace name)
