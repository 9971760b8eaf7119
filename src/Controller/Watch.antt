-- ===== src/Controller/Watch.antt =====
-- `findLoadBalancerServices` and the predicate of the watch on services
-- (internal/controller/heliosconfig_controller.go).
use helios_lb.Prelude.{Bool, List, [], ◌∷◌, ◌||◌, if◌then◌else◌, Text, text_eq, ok, err}
use helios_lb.Network.Allocator.{ip_in_range}
use helios_lb.Api.Types.{HeliosConfig}
use helios_lb.Controller.Types.{Service, Client}

-- The predicate of the watch.
unfoldable pub watched : Service → Bool
watched svc = svc.is_load_balancer

-- The service passes the `continue` of the loop.
unfoldable pub covers : Service → HeliosConfig → Bool
covers svc hc = text_eq svc.load_balancer_ip [] || ip_in_range svc.load_balancer_ip hc.spec.ip_range

-- The requests for a service: the namespaces and names of the configs.
unfoldable pub requests_for : Service → List HeliosConfig → List (Text × Text)
unfolding covers
requests_for svc [] = []
requests_for svc (c ∷ cs) =
    let rest = requests_for svc cs in if covers svc c then (c.namespace, c.name) ∷ rest else rest

module _ {W E : Type 0} (client : Client W E) where
  unfoldable pub find_load_balancer_services : W → Service → List (Text × Text)
  unfolding requests_for
  find_load_balancer_services w svc = elim (client.list_configs w) [
    | err e ↦ []
    | ok configs ↦ requests_for svc configs
  ]
