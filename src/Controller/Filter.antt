-- ===== src/Controller/Filter.antt =====
-- internal/controller/service_filter.go. A missing variadic `ipv6Range` is the empty text.
pub mod Eligible
use helios_lb.Prelude.{
  ℕ, suc, zero, ◌≡◌, refl, Bool, true, false, not, ◌&&◌, ◌||◌, List, [], ◌∷◌, Option, none, some,
  if◌then◌else◌, Text, text_eq, keep_if, get_elem?, arith,
}
use helios_lb.Network.Allocator.{ip_allocatable}
use helios_lb.Api.Types.{load_balancer_class_helios}
use helios_lb.Controller.Types.{Service}

-- `nsAllowed[ns]`.
unfoldable pub allows : List Text → Text → Bool
allows [] ns = false
allows (n ∷ ns') ns = text_eq n ns || allows ns' ns

unfoldable pub has_class : Service → Bool
has_class svc = elim svc.load_balancer_class [
  | none ↦ true
  | some c ↦ text_eq c load_balancer_class_helios
]

unfoldable pub is_empty : List Text → Bool
is_empty [] = true
is_empty (x ∷ xs) = false

-- The request of a service, if it has one, is for an address of the ranges.
unfoldable pub request_fits : Service → Text → Text → Bool
request_fits svc ip_range ipv6_range =
    text_eq svc.load_balancer_ip []
    || ip_allocatable svc.load_balancer_ip ip_range
    || not (text_eq ipv6_range []) && ip_allocatable svc.load_balancer_ip ipv6_range

-- The service passes every `continue` of the loop.
unfoldable pub eligible : List Text → Text → Text → Service → Bool
unfolding has_class is_empty
eligible selector ip_range ipv6_range svc =
    if svc.is_load_balancer
    then (if has_class svc
        then (if is_empty selector || allows selector svc.namespace
            then is_empty svc.ingress && request_fits svc ip_range ipv6_range
            else false)
        else false)
    else false

unfoldable pub filter_eligible_services : List Service → List Text → Text → Text → List Service
filter_eligible_services services selector ip_range ipv6_range =
    keep_if (eligible selector ip_range ipv6_range) services
