-- ===== src/Controller/Types.antt =====
-- The Service resource as internal/controller reads and writes it, and the Kubernetes client as a
-- parameter: what each of its calls returns in a state of the cluster, and the state after it.
use helios_lb.Prelude.{Bool, List, Option, Text, Dict, Result}
use helios_lb.Api.Types.{Condition, HeliosConfig}

pub record Service : Type 0 where
  pub name : Text
  pub namespace : Text
  -- whether `spec.type` is `LoadBalancer`
  pub is_load_balancer : Bool
  pub load_balancer_class : Option Text
  pub load_balancer_ip : Text
  pub annotations : Dict Text
  -- the addresses of `status.loadBalancer.ingress`
  pub ingress : List Text

-- `W` is the state of the cluster, `E` an error. An update returns the object as the server has it.
pub record Client (W E : Type 0) : Type 0 where
  pub get_config : W → Text → Text → Result E HeliosConfig
  -- `apierrors.IsNotFound`, which `client.IgnoreNotFound` tests
  pub is_not_found : E → Bool
  pub update_config : W → HeliosConfig → Result E HeliosConfig × W
  pub update_config_status : W → HeliosConfig → Result E HeliosConfig × W
  pub list_services : W → Result E (List Service)
  pub list_configs : W → Result E (List HeliosConfig)
  pub get_service : W → Text → Text → Result E Service
  pub update_status : W → Service → Result E Service × W
  pub update : W → Service → Result E Service × W
  -- `retry.RetryOnConflict`
  pub retry_on_conflict : (W → Result E (Unit {0}) × W) → W → Result E (Unit {0}) × W

-- `controllerutil` and `meta.SetStatusCondition`.
pub record Machinery : Type 0 where
  pub contains_finalizer : HeliosConfig → Text → Bool
  pub add_finalizer : HeliosConfig → Text → HeliosConfig
  pub remove_finalizer : HeliosConfig → Text → HeliosConfig
  pub set_status_condition : List Condition → Condition → List Condition
