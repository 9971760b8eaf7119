-- ===== src/Api/Types.antt =====
-- api/v1/heliosconfig_types.go. An `int32` is an integer, a timestamp is whether it is set, and the
-- metadata are those that the program reads.
use helios_lb.Prelude.{ℕ, Bool, List, Option, Text, Dict, codes}
use helios_lb.Prelude.Int.{ℤ}

pub record PortConfig : Type 0 where
  pub port : ℤ
  pub protocol : Text

pub record WeightConfig : Type 0 where
  pub service_name : Text
  pub weight : ℤ

pub record HealthCheckConfig : Type 0 where
  pub enabled : Bool
  pub interval_seconds : ℤ
  pub timeout_ms : ℤ
  pub protocol : Text
  pub http_path : Text

pub record HeliosConfigSpec : Type 0 where
  pub ip_range : Text
  pub ipv6_range : Text
  pub service : Text
  pub protocol : Text
  pub ports : List PortConfig
  pub method : Text
  pub weights : List WeightConfig
  pub health_check : Option HealthCheckConfig
  pub namespace_selector : List Text
  pub max_allocations : ℤ

-- `metav1.Condition` without its time.
pub record Condition : Type 0 where
  pub type : Text
  pub status : Bool
  pub reason : Text
  pub message : Text
  pub observed_generation : ℕ

pub record HeliosConfigStatus : Type 0 where
  pub allocated_ips : Dict Text
  pub allocated_ipv6s : Dict Text
  pub state : Text
  pub message : Text
  pub conditions : List Condition
  pub phase : Text

pub record HeliosConfig : Type 0 where
  pub name : Text
  pub namespace : Text
  pub generation : ℕ
  pub deleting : Bool
  pub finalizers : List Text
  pub spec : HeliosConfigSpec
  pub status : HeliosConfigStatus

abbrev pub load_balancer_class_helios : Text
load_balancer_class_helios = codes "helios-lb"

abbrev pub method_weighted_round_robin : Text
method_weighted_round_robin = codes "WeightedRoundRobin"

abbrev pub protocol_tcp : Text
protocol_tcp = codes "TCP"

abbrev pub protocol_udp : Text
protocol_udp = codes "UDP"

abbrev pub protocol_http : Text
protocol_http = codes "HTTP"

abbrev pub state_active : Text
state_active = codes "Active"

abbrev pub state_failed : Text
state_failed = codes "Failed"

abbrev pub condition_type_ready : Text
condition_type_ready = codes "Ready"

abbrev pub condition_type_degraded : Text
condition_type_degraded = codes "Degraded"

abbrev pub reason_initializing : Text
reason_initializing = codes "Initializing"

abbrev pub reason_network_configured : Text
reason_network_configured = codes "NetworkConfigured"

abbrev pub reason_ip_allocation_error : Text
reason_ip_allocation_error = codes "IPAllocationError"

abbrev pub reason_ip_conflict : Text
reason_ip_conflict = codes "IPConflict"
