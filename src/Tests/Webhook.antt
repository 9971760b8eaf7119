-- ===== src/Tests/Webhook.antt =====
-- Instances of the theorems about api/v1/heliosconfig_webhook.go.
use helios_lb.Prelude.{
  ◌⊎◌, ℕ, ◌≤◌, ◌≡◌, ◌↔◌, refl, Bool, true, false, List, [], ◌∷◌, Option, none, some, All, get_elem?,
  arith, Text, text_eq, codes, ok,
}
use helios_lb.Prelude.Int.{pos}
use helios_lb.Net.Addr.{Ip}
use helios_lb.Network.Parse.{parse_ip_range, normalize_ip}
use helios_lb.Network.Allocator.Free.{InRange}
use helios_lb.Api.Types.{
  WeightConfig, method_weighted_round_robin, PortConfig, HeliosConfigSpec, HeliosConfigStatus,
  HeliosConfig, protocol_tcp, protocol_udp,
}
use helios_lb.Api.Webhook.{
  Fault, Lister, listed, family_range, validate_ip_range, validate_ports, validate_weights,
  validate_spec, check_ip_range_overlap,
}
use helios_lb.Api.Webhook.Ranges.{Allocatable, validate_ip_range-Allocatable}
use helios_lb.Api.Webhook.Ports.{IsPort, Distinct, validate_ports_iff}
use helios_lb.Api.Webhook.Weights.{IsWeight, OnePerService, validate_weights_iff}
use helios_lb.Api.Webhook.Overlap.{OneFamily, accepted_disjoint}

abbrev spec_of : Text → HeliosConfigSpec
spec_of range = record {
  ip_range = range;
  ipv6_range = [];
  service = [];
  protocol = [];
  ports = [];
  method = [];
  weights = [];
  health_check = none;
  namespace_selector = [];
  max_allocations = pos 0;
}

abbrev no_status : HeliosConfigStatus
no_status = record {
  allocated_ips = [];
  allocated_ipv6s = [];
  state = [];
  message = [];
  conditions = [];
  phase = [];
}

abbrev config_of : Text → Text → Text → HeliosConfig
config_of name namespace range = record {
  name = name;
  namespace = namespace;
  generation = 1;
  deleting = false;
  finalizers = [];
  spec = spec_of range;
  status = no_status;
}

abbrev low_range : Text
low_range = codes "10.0.0.1-10.0.0.9"

abbrev high_range : Text
high_range = codes "10.0.0.10-10.0.0.20"

abbrev low : HeliosConfig
low = config_of (codes "low") (codes "a") low_range

abbrev high : HeliosConfig
high = config_of (codes "high") (codes "a") high_range

abbrev namesake : HeliosConfig
namesake = config_of (codes "low") (codes "b") low_range

low_valid : validate_ip_range low_range ≡ none
unfolding validate_ip_range text_eq helios_lb.Prelude.contains helios_lb.Prelude.trim_space
    helios_lb.Net.Parse.parse_ip helios_lb.Prelude.split normalize_ip helios_lb.Net.Addr.to4
    helios_lb.Api.Webhook.validate_dashed helios_lb.Network.Parse.compare_ips
    helios_lb.Net.Addr.compare_bytes
low_valid = refl

valid_range_example : Allocatable low_range
valid_range_example = validate_ip_range-Allocatable low_range low_valid

abbrev two_ports : List PortConfig
two_ports =
    record { port = pos 80; protocol = protocol_tcp }
    ∷ record { port = pos 53; protocol = protocol_udp }
    ∷ []

ports_example : (validate_ports two_ports ≡ none) ↔ (All IsPort two_ports × Distinct two_ports)
ports_example = validate_ports_iff two_ports

low_accepted : validate_spec (listed (high ∷ [])) low [] ≡ none
unfolding validate_spec validate_ip_range text_eq helios_lb.Prelude.contains
    helios_lb.Prelude.trim_space helios_lb.Net.Parse.parse_ip helios_lb.Prelude.split normalize_ip
    helios_lb.Net.Addr.to4 helios_lb.Api.Webhook.validate_dashed helios_lb.Network.Parse.compare_ips
    helios_lb.Net.Addr.compare_bytes parse_ip_range validate_ports helios_lb.Api.Webhook.ports_from
    helios_lb.Api.Webhook.validate_weights helios_lb.Api.Webhook.validate_health_check
    check_ip_range_overlap helios_lb.Api.Webhook.overlap_for_range
    helios_lb.Api.Webhook.overlap_from helios_lb.Api.Webhook.overlaps_existing
    helios_lb.Api.Webhook.ranges_overlap
low_accepted = refl

low_parses : parse_ip_range low_range ≡ ok (10 ∷ 0 ∷ 0 ∷ 1 ∷ [], 10 ∷ 0 ∷ 0 ∷ 9 ∷ [])
unfolding parse_ip_range helios_lb.Prelude.contains helios_lb.Prelude.trim_space
    helios_lb.Net.Parse.parse_ip helios_lb.Prelude.split normalize_ip helios_lb.Net.Addr.to4
low_parses = refl

high_parses : parse_ip_range high_range ≡ ok (10 ∷ 0 ∷ 0 ∷ 10 ∷ [], 10 ∷ 0 ∷ 0 ∷ 20 ∷ [])
unfolding parse_ip_range helios_lb.Prelude.contains helios_lb.Prelude.trim_space
    helios_lb.Net.Parse.parse_ip helios_lb.Prelude.split normalize_ip helios_lb.Net.Addr.to4
high_parses = refl

low_high-OneFamily :
    OneFamily
      (10 ∷ 0 ∷ 0 ∷ 1 ∷ [])
      (10 ∷ 0 ∷ 0 ∷ 9 ∷ [])
      (10 ∷ 0 ∷ 0 ∷ 10 ∷ [])
      (10 ∷ 0 ∷ 0 ∷ 20 ∷ [])
unfolding normalize_ip helios_lb.Net.Addr.to4
low_high-OneFamily = record {
  same_length = (refl, refl, refl);
  normal = (refl, refl);
  normal' = (refl, refl);
}

disjoint_example : ¬ (
    InRange (10 ∷ 0 ∷ 0 ∷ 1 ∷ []) (10 ∷ 0 ∷ 0 ∷ 9 ∷ []) (10 ∷ 0 ∷ 0 ∷ 9 ∷ [])
    × InRange (10 ∷ 0 ∷ 0 ∷ 10 ∷ []) (10 ∷ 0 ∷ 0 ∷ 20 ∷ []) (10 ∷ 0 ∷ 0 ∷ 9 ∷ []))
unfolding text_eq
disjoint_example =
    accepted_disjoint (high ∷ []) low high [] false 0 (10 ∷ 0 ∷ 0 ∷ 1 ∷ []) (10 ∷ 0 ∷ 0 ∷ 9 ∷ [])
      (10 ∷ 0 ∷ 0 ∷ 10 ∷ []) (10 ∷ 0 ∷ 0 ∷ 20 ∷ []) (10 ∷ 0 ∷ 0 ∷ 9 ∷ []) low_accepted refl refl
      low_parses high_parses low_high-OneFamily

abbrev two_weights : List WeightConfig
two_weights =
    record { service_name = codes "web"; weight = pos 1 }
    ∷ record { service_name = codes "api"; weight = pos 100 }
    ∷ []

weights_example : (validate_weights two_weights method_weighted_round_robin ≡ none) ↔ (
    ((two_weights ≡ []) ⊎ (method_weighted_round_robin ≡ method_weighted_round_robin))
    × All IsWeight two_weights
    × OnePerService two_weights)
weights_example = validate_weights_iff two_weights method_weighted_round_robin
