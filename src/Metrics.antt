-- ===== src/Metrics.antt =====
-- internal/metrics/metrics.go: the metrics that the program registers, and what each method of the
-- recorder sends to them. A `float64` is the integer that it holds; one of seconds is a duration in
-- nanoseconds.
pub mod Labels
use helios_lb.Prelude.{ℕ, Bool, true, false, List, [], ◌∷◌, Text, codes, if◌then◌else◌}
use helios_lb.Prelude.Int.{ℤ, pos}

pub data Metric : Type 0 where
  lb_status backend_connections backend_health request_duration operation_total : Metric
  ip_allocation_status reconcile_duration reconcile_total requeue_reason_total : Metric
  ip_pool_utilization : Metric

pub data Kind : Type 0 where
  gauge histogram counter : Kind

unfoldable pub kind : Metric → Kind
kind lb_status = gauge
kind backend_connections = gauge
kind backend_health = gauge
kind request_duration = histogram
kind operation_total = counter
kind ip_allocation_status = gauge
kind reconcile_duration = histogram
kind reconcile_total = counter
kind requeue_reason_total = counter
kind ip_pool_utilization = gauge

unfoldable pub metric_name : Metric → Text
metric_name lb_status = codes "helios_lb_status"
metric_name backend_connections = codes "helios_backend_connections"
metric_name backend_health = codes "helios_backend_health"
metric_name request_duration = codes "helios_request_duration_seconds"
metric_name operation_total = codes "helios_operations_total"
metric_name ip_allocation_status = codes "helios_ip_allocation_status"
metric_name reconcile_duration = codes "helios_reconcile_duration_seconds"
metric_name reconcile_total = codes "helios_reconcile_total"
metric_name requeue_reason_total = codes "helios_requeue_reason_total"
metric_name ip_pool_utilization = codes "helios_ip_pool_utilization"

abbrev name_and_namespace : List Text
name_and_namespace = codes "name" ∷ codes "namespace" ∷ []

abbrev address_and_service : List Text
address_and_service = codes "backend_address" ∷ codes "service_name" ∷ []

unfoldable pub label_names : Metric → List Text
label_names lb_status = name_and_namespace
label_names backend_connections = address_and_service
label_names backend_health = address_and_service
label_names request_duration = codes "service_name" ∷ []
label_names operation_total = codes "service_name" ∷ codes "operation" ∷ codes "status" ∷ []
label_names ip_allocation_status = codes "ip_address" ∷ []
label_names reconcile_duration = codes "name" ∷ codes "namespace" ∷ codes "result" ∷ []
label_names reconcile_total = codes "name" ∷ codes "namespace" ∷ codes "result" ∷ []
label_names requeue_reason_total = codes "name" ∷ codes "namespace" ∷ codes "reason" ∷ []
label_names ip_pool_utilization = name_and_namespace

-- The arguments of `MustRegister`.
unfoldable pub registered : List Metric
registered =
    lb_status ∷ backend_connections ∷ backend_health ∷ request_duration ∷ operation_total
    ∷ ip_allocation_status ∷ reconcile_duration ∷ reconcile_total ∷ requeue_reason_total
    ∷ ip_pool_utilization ∷ []

-- A call on `metric.WithLabelValues(values...)`.
pub data Sample : Type 0 where
  set : Metric → List Text → ℤ → Sample
  observe : Metric → List Text → ℕ → Sample
  inc : Metric → List Text → Sample

abbrev pub flag : Bool → ℤ
flag active = if active then pos 1 else pos 0

unfoldable pub record_lb_status : Text → Text → Bool → List Sample
record_lb_status name namespace active = set lb_status (name ∷ namespace ∷ []) (flag active) ∷ []

unfoldable pub record_backend_connections : Text → Text → ℤ → List Sample
record_backend_connections address service connections =
    set backend_connections (address ∷ service ∷ []) connections ∷ []

unfoldable pub record_backend_health : Text → Text → Bool → List Sample
record_backend_health address service healthy =
    set backend_health (address ∷ service ∷ []) (flag healthy) ∷ []

unfoldable pub record_request_duration : Text → ℕ → List Sample
record_request_duration service duration = observe request_duration (service ∷ []) duration ∷ []

unfoldable pub record_operation : Text → Text → Text → List Sample
record_operation service operation status =
    inc operation_total (service ∷ operation ∷ status ∷ []) ∷ []

unfoldable pub record_ip_allocation : Text → Bool → List Sample
record_ip_allocation ip allocated = set ip_allocation_status (ip ∷ []) (flag allocated) ∷ []

unfoldable pub record_reconcile_duration : Text → Text → Text → ℕ → List Sample
record_reconcile_duration name namespace result duration =
    observe reconcile_duration (name ∷ namespace ∷ result ∷ []) duration
    ∷ inc reconcile_total (name ∷ namespace ∷ result ∷ [])
    ∷ []

unfoldable pub record_requeue_reason : Text → Text → Text → List Sample
record_requeue_reason name namespace reason =
    inc requeue_reason_total (name ∷ namespace ∷ reason ∷ []) ∷ []

unfoldable pub record_ip_pool_utilization : Text → Text → ℕ → List Sample
record_ip_pool_utilization name namespace count =
    set ip_pool_utilization (name ∷ namespace ∷ []) (pos count) ∷ []
