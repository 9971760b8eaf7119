-- ===== src/Metrics/Labels.antt =====
-- The label values of internal/metrics/metrics.go. `WithLabelValues` panics on a wrong number of
-- values, and `MustRegister` on two metrics of one name.
use mathlib.Core.Option.{some-injective}
use helios_lb.Prelude.{
  ◌≡◌, refl, sym, ◌∙◌, ap, List, [], ◌∷◌, Option, none, some, Text, text_eq, if◌then◌else◌, length,
}
use helios_lb.Metrics.{
  Metric, gauge, histogram, counter, kind, metric_name, label_names, registered, Sample, set,
  observe, inc, lb_status, backend_connections, backend_health, request_duration, operation_total,
  ip_allocation_status, reconcile_duration, reconcile_total, requeue_reason_total,
  ip_pool_utilization,
}

-- The call is one that the metric has, with a value for each label.
abbrev pub Fits : Sample → Type 0
Fits (set m values v) = (kind m ≡ gauge) × (length values ≡ length (label_names m))
Fits (observe m values d) = (kind m ≡ histogram) × (length values ≡ length (label_names m))
Fits (inc m values) = (kind m ≡ counter) × (length values ≡ length (label_names m))

-- The first metric of the name.
unfoldable pub metric_of : Text → List Metric → Option Metric
metric_of name [] = none
metric_of name (m ∷ ms) = if text_eq (metric_name m) name then some m else metric_of name ms

metric_of-name : (m : Metric) → metric_of (metric_name m) registered ≡ some m
unfolding metric_of metric_name registered text_eq
metric_of-name lb_status = refl
metric_of-name backend_connections = refl
metric_of-name backend_health = refl
metric_of-name request_duration = refl
metric_of-name operation_total = refl
metric_of-name ip_allocation_status = refl
metric_of-name reconcile_duration = refl
metric_of-name reconcile_total = refl
metric_of-name requeue_reason_total = refl
metric_of-name ip_pool_utilization = refl

-- No two metrics have one name.
pub metric_name-injective : (m n : Metric) → metric_name m ≡ metric_name n → m ≡ n
metric_name-injective m n e =
    some-injective m n
      (sym (metric_of-name m) ∙ ap (λ s. metric_of s registered) e ∙ metric_of-name n)
