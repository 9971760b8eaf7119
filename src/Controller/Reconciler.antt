-- ===== src/Controller/Reconciler.antt =====
-- internal/controller/heliosconfig_controller.go: one reconciliation, with the events and the metrics
-- that it sends; its logs are left out. What it has read and changed of the config is passed on.
pub mod Main
pub mod Laws
pub mod Entries
pub mod Labels
pub mod Handed
pub mod Serving
pub mod Given
pub mod Serves
pub mod Calls
pub mod Failures
pub mod Quota
pub mod Runs
pub mod Deletion
pub mod Namesakes
use helios_lb.Prelude.{
  ℕ, ◌*◌, ◌+◌, Bool, true, false, List, [], ◌∷◌, ◌++◌, Option, none, some, if◌then◌else◌, length,
  Text, text_eq, codes, Dict, insert, Result, ok, err,
}
use helios_lb.Prelude.Int.{ℤ}
use helios_lb.Network.Manager.{NetworkManager}
use helios_lb.Metrics.{
  Sample, record_lb_status, record_ip_allocation, record_reconcile_duration, record_requeue_reason,
  record_ip_pool_utilization,
}
use helios_lb.Api.Types.{
  Condition, HeliosConfigStatus, HeliosConfig, condition_type_ready, condition_type_degraded,
  reason_initializing, reason_network_configured, reason_ip_allocation_error, reason_ip_conflict,
  state_active, state_failed,
}
use helios_lb.Controller.Types.{Service, Client, Machinery}
use helios_lb.Controller.Errors.{Error, leaf, retryable, error_text}
use helios_lb.Controller.Filter.{filter_eligible_services}
use helios_lb.Controller.Manager.{
  AssignError, list_failed, update_failed, ipv4_failed, ipv6_failed, Outcome, allocate_and_assign,
  release_all, check_ip_conflicts, within_quota,
}

-- The events, by reason and with what their texts name, without the error of a failed cleanup.
pub data Event : Type 0 where
  ip_conflict : ℕ → Event
  quota_exceeded : ℕ → ℤ → Event
  allocation_failed : Text → Text → Text → Event
  ip_allocated : Text → Text → Text → Event
  dual_stack_allocated : Text → Text → Text → Text → Event
  cleanup_started : ℕ → Event
  cleanup_failed : Event
  cleanup_complete : Event

-- What a reconciliation changes besides the config.
pub record State (W : Type 0) : Type 0 where
  pub manager : NetworkManager
  pub world : W
  pub events : List Event
  pub samples : List Sample

abbrev pub config_finalizer : Text
config_finalizer = codes "balancer.helios.dev/finalizer"

-- Durations are in nanoseconds.
abbrev pub seconds : ℕ → ℕ
seconds n = n * 1000000000

-- The error that `AllocateAndAssign` returns; `cause` is the text of the error that it wraps.
unfoldable pub go_error : {E : Type 0} → (AssignError E → Text) → AssignError E → Error
go_error cause (list_failed e) =
    retryable (codes "failed to list configs for conflict check") (leaf (cause (list_failed e)))
go_error cause (ipv4_failed e) =
    retryable (codes "IPv4 allocation failed") (leaf (cause (ipv4_failed e)))
go_error cause (ipv6_failed e) =
    retryable (codes "IPv6 allocation failed") (leaf (cause (ipv6_failed e)))
go_error cause (update_failed e) =
    retryable (codes "service update failed") (leaf (cause (update_failed e)))

-- The allocations of a service, entered under its name.
unfoldable pub record_allocation : HeliosConfigStatus → Service → Text → Text → HeliosConfigStatus
record_allocation status svc ip ipv6 = record status {
  allocated_ips = insert svc.name ip status.allocated_ips;
  allocated_ipv6s =
      if text_eq ipv6 []
      then status.allocated_ipv6s
      else insert svc.name ipv6 status.allocated_ipv6s;
}

unfoldable pub allocation_event : Service → Text → Text → Event
allocation_event svc ip ipv6 =
    if text_eq ipv6 []
    then ip_allocated ip svc.namespace svc.name
    else dual_stack_allocated ip ipv6 svc.namespace svc.name

unfoldable pub allocation_samples : Text → Text → List Sample
allocation_samples ip ipv6 =
    record_ip_allocation ip true ++ (if text_eq ipv6 [] then [] else record_ip_allocation ipv6 true)

unfoldable pub release_samples : Dict Text → List Sample
release_samples [] = []
release_samples ((service, ip) ∷ m) = record_ip_allocation ip false ++ release_samples m

module _ {W : Type 0} where
  unfoldable pub emit : Event → State W → State W
  emit e st = record st { events = st.events ++ e ∷ [] }

  unfoldable pub send : List Sample → State W → State W
  send xs st = record st { samples = st.samples ++ xs }

  unfoldable pub requeue_reason : HeliosConfig → Text → State W → State W
  unfolding send
  requeue_reason hc reason st = send (record_requeue_reason hc.name hc.namespace reason) st

  -- The deferred metrics, at what the config is in the end.
  unfoldable pub reconcile_metrics : HeliosConfig → ℕ → State W → State W
  unfolding send
  reconcile_metrics hc duration st =
      let result =
        if text_eq hc.status.phase state_failed then codes "error" else codes "success" in
      send
        (record_reconcile_duration hc.name hc.namespace result duration
          ++ (record_lb_status hc.name hc.namespace (text_eq hc.status.phase state_active)
              ++ record_ip_pool_utilization hc.name hc.namespace (length hc.status.allocated_ips)))
        st

-- The config as an update leaves it: as the server returns it, or as it was.
unfoldable pub updated : {E : Type 0} → HeliosConfig → Result E HeliosConfig → HeliosConfig
updated hc (ok c) = c
updated hc (err e) = hc

module _ {W E : Type 0} (client : Client W E) (k : Machinery) (cause : AssignError E → Text) where
  -- The result is the time after which the config is queued again, where zero stands for never.
  abbrev pub Reconciled : Type 0
  Reconciled = Result E ℕ × HeliosConfig × State W

  unfoldable pub set_condition :
      HeliosConfigStatus → ℕ → Text → Bool → Text → Text → HeliosConfigStatus
  set_condition status generation type value reason message = record status {
    conditions = k.set_status_condition status.conditions (record {
      type = type;
      status = value;
      reason = reason;
      message = message;
      observed_generation = generation;
    });
  }

  unfoldable pub succeeded_status : HeliosConfigStatus → ℕ → HeliosConfigStatus
  unfolding set_condition
  succeeded_status status generation =
      let message = codes "IP allocated successfully" in
      let active = record status {
        phase = state_active;
        state = state_active;
        message = message;
      } in
      set_condition
        (set_condition active generation condition_type_ready true reason_network_configured
          message)
        generation condition_type_degraded false reason_network_configured
        (codes "All allocations healthy")

  unfoldable pub failed_status : HeliosConfigStatus → ℕ → Text → HeliosConfigStatus
  unfolding set_condition
  failed_status status generation message =
      let failed = record status {
        phase = state_failed;
        state = state_failed;
        message = message;
      } in
      set_condition
        (set_condition failed generation condition_type_ready false reason_ip_allocation_error
          message)
        generation condition_type_degraded true reason_ip_allocation_error message

  -- The end of the loop over the services.
  unfoldable pub periodic : HeliosConfig → State W → Reconciled
  unfolding requeue_reason
  periodic hc st = (ok (seconds 5), hc, requeue_reason hc (codes "periodic") st)

  unfoldable pub allocation_failure : Service → HeliosConfig → State W → AssignError E → Reconciled
  unfolding emit requeue_reason failed_status go_error
  allocation_failure svc hc st e =
      let text = error_text (go_error cause e) in
      let failed = record hc { status = failed_status hc.status hc.generation text } in
      let (r, w) = client.update_config_status st.world failed in
      let st' = record (emit (allocation_failed svc.namespace svc.name text) st) { world = w } in
      (
        ok (seconds 10),
        updated failed r,
        requeue_reason (updated failed r) (codes "ip_allocation_error") st',
      )

  -- Behind the status update of a service, with the rest of the loop.
  unfoldable pub status_updated :
      (HeliosConfig → State W → Reconciled)
      → HeliosConfig
      → State W
      → Result E HeliosConfig × W
      → Reconciled
  status_updated next hc st (err e, w) = (err e, hc, record st { world = w })
  status_updated next hc st (ok c, w) = next c (record st { world = w })

  -- Behind the assignment to a service.
  unfoldable pub service_assigned :
      (HeliosConfig → State W → Reconciled)
      → Service
      → HeliosConfig
      → State W
      → Outcome client
      → Reconciled
  unfolding allocation_failure status_updated succeeded_status record_allocation emit send
  service_assigned next svc hc st (err e, nm, w) =
      allocation_failure svc hc (record st { manager = nm; world = w }) e
  service_assigned next svc hc st (ok (ip, ipv6), nm, w) =
      let status = record_allocation hc.status svc ip ipv6 in
      let active = record hc { status = succeeded_status status hc.generation } in
      let st' =
        emit (allocation_event svc ip ipv6)
          (send (allocation_samples ip ipv6) (record st { manager = nm; world = w })) in
      status_updated next active st' (client.update_config_status w active)

  -- The loop over the eligible services.
  unfoldable pub serve : List Service → HeliosConfig → State W → Reconciled
  unfolding periodic service_assigned emit
  serve [] hc st = periodic hc st
  serve (svc ∷ more) hc st =
      let next =
        service_assigned (serve more) svc hc st
          (allocate_and_assign client st.manager st.world hc svc) in
      let stop =
        periodic hc
          (emit (quota_exceeded (length hc.status.allocated_ips) hc.spec.max_allocations) st) in
      if within_quota hc then next else stop
