-- ===== src/Api/Webhook.antt =====
-- api/v1/heliosconfig_webhook.go. A validation returns nil or the first fault, which is named by its
-- check; what the client lists is an argument.
pub mod Ranges
pub mod Ports
pub mod Weights
pub mod Overlap
use helios_lb.Prelude.{
  ℕ, ◌+◌, Bool, true, false, ◌&&◌, ◌||◌, List, [], ◌∷◌, Option, none, some, leb, ◌==◌,
  if◌then◌else◌, length, ok, err, Text, text_eq, trim_space, contains, split,
}
use helios_lb.Prelude.Int.{ℤ, pos, negsuc, pos_part, neg_part}
use helios_lb.Net.Addr.{Ip, not_above, not_below}
use helios_lb.Net.Parse.{parse_ip, parse_cidr}
use helios_lb.Network.Parse.{normalize_ip, compare_ips, parse_ip_range}
use helios_lb.Api.Types.{
  PortConfig, WeightConfig, HealthCheckConfig, HeliosConfigSpec, HeliosConfig,
  method_weighted_round_robin, protocol_tcp, protocol_udp, protocol_http,
}

pub data Fault : Type 0 where
  range_required invalid_cidr invalid_format invalid_start invalid_end mixed_families reversed :
      Fault
  port_out_of_range port_protocol duplicate_port : Fault
  weights_method weight_name weight_out_of_range duplicate_weight : Fault
  health_protocol health_path : Fault
  -- the name of the other config
  overlap : Text → Fault

unfoldable pub validate_ends : Option Ip → Option Ip → Option Fault
validate_ends none end = some invalid_start
validate_ends (some start) none = some invalid_end
validate_ends (some start) (some end) =
    if length (normalize_ip start) == length (normalize_ip end)
    then (if not_above (compare_ips (normalize_ip start) (normalize_ip end))
        then none
        else some reversed)
    else some mixed_families

unfoldable pub validate_dashed : List Text → Option Fault
unfolding validate_ends
validate_dashed [] = some invalid_format
validate_dashed (p ∷ []) = some invalid_format
validate_dashed (p ∷ q ∷ []) = validate_ends (parse_ip (trim_space p)) (parse_ip (trim_space q))
validate_dashed (p ∷ q ∷ r ∷ more) = some invalid_format

unfoldable pub validate_ip_range : Text → Option Fault
validate_ip_range ip_range =
    let trimmed = trim_space ip_range in
    if text_eq ip_range []
    then some range_required
    else if contains trimmed b'/'
    then elim (parse_cidr trimmed) [ none ↦ some invalid_cidr | some net ↦ none ]
    else elim (parse_ip trimmed) [ some ip ↦ none | none ↦ validate_dashed (split trimmed b'-') ]

-- `a == b` on `int32`.
unfoldable pub eq_ℤ : ℤ → ℤ → Bool
eq_ℤ a b = pos_part a + neg_part b == pos_part b + neg_part a

-- `seen[p]`.
unfoldable pub seen_port : ℤ → List ℤ → Bool
unfolding eq_ℤ
seen_port p [] = false
seen_port p (q ∷ seen) = eq_ℤ p q || seen_port p seen

-- `lo <= n && n <= hi`.
abbrev pub in_bounds : ℕ → ℕ → ℤ → Bool
in_bounds lo hi (pos n) = leb lo n && leb n hi
in_bounds lo hi (negsuc n) = false

abbrev pub is_port_protocol : Text → Bool
is_port_protocol p = text_eq p [] || text_eq p protocol_tcp || text_eq p protocol_udp

unfoldable pub ports_from : List PortConfig → List ℤ → Option Fault
ports_from [] seen = none
ports_from (p ∷ ps) seen =
    let rest = ports_from ps (p.port ∷ seen) in
    if in_bounds 1 65535 p.port
    then (if is_port_protocol p.protocol
        then (if seen_port p.port seen then some duplicate_port else rest)
        else some port_protocol)
    else some port_out_of_range

unfoldable pub validate_ports : List PortConfig → Option Fault
validate_ports ps = ports_from ps []

unfoldable pub seen_name : Text → List Text → Bool
seen_name n [] = false
seen_name n (m ∷ seen) = text_eq n m || seen_name n seen

unfoldable pub weights_from : List WeightConfig → List Text → Option Fault
weights_from [] seen = none
weights_from (w ∷ ws) seen =
    let rest = weights_from ws (w.service_name ∷ seen) in
    if text_eq w.service_name []
    then some weight_name
    else if in_bounds 1 100 w.weight
    then (if seen_name w.service_name seen then some duplicate_weight else rest)
    else some weight_out_of_range

unfoldable pub validate_weights : List WeightConfig → Text → Option Fault
validate_weights [] method = none
validate_weights (w ∷ ws) method =
    if text_eq method method_weighted_round_robin
    then weights_from (w ∷ ws) []
    else some weights_method

unfoldable pub validate_health_check : Option HealthCheckConfig → Option Fault
validate_health_check none = none
validate_health_check (some hc) =
    if text_eq hc.protocol []
      || text_eq hc.protocol protocol_tcp
      || text_eq hc.protocol protocol_http
    then (if text_eq hc.protocol protocol_http && text_eq hc.http_path []
        then some health_path
        else none)
    else some health_protocol

-- The range of a config in a family.
abbrev pub family_range : Bool → HeliosConfigSpec → Text
family_range true spec = spec.ipv6_range
family_range false spec = spec.ip_range

-- `newStart <= existEnd && newEnd >= existStart`.
unfoldable pub ranges_overlap : Ip × Ip → Ip × Ip → Bool
ranges_overlap (new_start, new_end) (exist_start, exist_end) =
    not_above (compare_ips new_start exist_end) && not_below (compare_ips new_end exist_start)

unfoldable pub overlaps_existing : Ip × Ip → Text → Bool
overlaps_existing new existing = elim (parse_ip_range existing) [
  | err e ↦ false
  | ok r ↦ ranges_overlap new r
]

-- The loop over the existing configs.
unfoldable pub overlap_from : Ip × Ip → Text → List HeliosConfig → Bool → Option Fault
overlap_from new exclude [] use_ipv6 = none
overlap_from new exclude (c ∷ cs) use_ipv6 =
    let rest = overlap_from new exclude cs use_ipv6 in
    let range = family_range use_ipv6 c.spec in
    if text_eq c.name exclude
    then rest
    else if text_eq range []
    then rest
    else if overlaps_existing new range
    then some (overlap c.name)
    else rest

unfoldable pub overlap_for_range : Text → Text → List HeliosConfig → Bool → Option Fault
overlap_for_range new_range exclude items use_ipv6 = elim (parse_ip_range new_range) [
  | err e ↦ none
  | ok new ↦ overlap_from new exclude items use_ipv6
]

-- The client of the validator and what `List` returns.
pub data Lister : Type 0 where
  no_client list_failed : Lister
  listed : List HeliosConfig → Lister

-- The first fault of two checks.
infixl 5 ◌then_check◌
abbrev pub ◌then_check◌ : Option Fault → Option Fault → Option Fault
none then_check n = n
some f then_check n = some f

unfoldable pub check_ip_range_overlap : HeliosConfig → Text → Lister → Option Fault
check_ip_range_overlap hc exclude no_client = none
check_ip_range_overlap hc exclude list_failed = none
check_ip_range_overlap hc exclude (listed items) =
    overlap_for_range hc.spec.ip_range exclude items false
    then_check (if text_eq hc.spec.ipv6_range []
        then none
        else overlap_for_range hc.spec.ipv6_range exclude items true)

unfoldable pub validate_spec : Lister → HeliosConfig → Text → Option Fault
validate_spec lister hc exclude =
    validate_ip_range hc.spec.ip_range
    then_check (if text_eq hc.spec.ipv6_range []
        then none
        else validate_ip_range hc.spec.ipv6_range)
    then_check validate_ports hc.spec.ports
    then_check validate_weights hc.spec.weights hc.spec.method
    then_check validate_health_check hc.spec.health_check
    then_check check_ip_range_overlap hc exclude lister

unfoldable pub validate_create : Lister → HeliosConfig → Option Fault
validate_create lister hc = validate_spec lister hc []

unfoldable pub validate_update : Lister → HeliosConfig → HeliosConfig → Option Fault
validate_update lister old hc = validate_spec lister hc hc.name

unfoldable pub validate_delete : HeliosConfig → Option Fault
validate_delete hc = none
