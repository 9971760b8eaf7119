-- ===== src/LoadBalancer/Balancer.antt =====
-- internal/loadbalancer/balancer.go, backend.go, metrics.go, health.go and `NextBackend`. A dial or a
-- request of a health check is an argument. The locks make each operation one step.
pub mod Selection
pub mod Health
pub mod Stats
pub mod Checked
use helios_lb.Prelude.{
  ◌*◌, ℕ, zero, suc, ◌+◌, ◌≤◌, ◌<◌, Bool, true, false, ◌&&◌, List, [], ◌∷◌, ◌++◌, Option, none,
  some, ltb, leb, ◌==◌, if◌then◌else◌, Text, text_eq, codes, Dict, lookup, insert,
}
use helios_lb.Prelude.Int.{ℤ, pos, negsuc}
use helios_lb.LoadBalancer.Types.{
  BalancerType, Weight, Backend, Pointer, Store, is_healthy, set_healthy, update, LoadBalancerStats,
  no_stats, Algorithm,
}
use helios_lb.LoadBalancer.Algorithms.{new_algorithm, select}

-- Durations are in nanoseconds.
pub record HealthCheckOptions : Type 0 where
  pub timeout : ℤ
  pub protocol : Text
  pub http_path : Text

pub record BalancerConfig : Type 0 where
  pub type : BalancerType
  pub health_check : Bool
  pub check_interval : ℤ
  pub metrics_enabled : Bool
  pub weights : List Weight
  pub health_check_opts : HealthCheckOptions

pub record LoadBalancer : Type 0 where
  pub backends : Dict (List Pointer)
  pub stats : Dict LoadBalancerStats
  pub config : BalancerConfig
  pub algorithm : Algorithm
  -- whether `stopCh` is closed
  pub stopped : Bool

abbrev pub second : ℕ
second = 1000000000

abbrev pub protocol_tcp : Text
protocol_tcp = codes "TCP"

unfoldable pub default_health_check_options : HealthCheckOptions
default_health_check_options = record {
  timeout = pos second;
  protocol = protocol_tcp;
  http_path = [];
}

unfoldable pub is_positive : ℤ → Bool
is_positive (pos zero) = false
is_positive (pos (suc n)) = true
is_positive (negsuc n) = false

-- The defaults that `NewLoadBalancer` fills in.
unfoldable pub with_defaults : BalancerConfig → BalancerConfig
unfolding is_positive text_eq
with_defaults c =
    let opts = c.health_check_opts in
    record c {
      check_interval =
          if c.health_check
          then (if is_positive c.check_interval then c.check_interval else pos (5 * second))
          else c.check_interval;
      health_check_opts = record opts {
        timeout = if is_positive opts.timeout then opts.timeout else pos second;
        protocol = if text_eq opts.protocol [] then protocol_tcp else opts.protocol;
      };
    }

unfoldable pub new_load_balancer : BalancerConfig → LoadBalancer
unfolding with_defaults new_algorithm
new_load_balancer c = record {
  backends = [];
  stats = [];
  config = with_defaults c;
  algorithm = new_algorithm (with_defaults c).type (with_defaults c).weights;
  stopped = false;
}

unfoldable pub add_backend : LoadBalancer → Store → Pointer → LoadBalancer
unfolding no_stats
add_backend lb σ p =
    let service = (σ p).service_name in
    elim (lookup service lb.backends) [
      | none ↦ record lb {
        backends = insert service (p ∷ []) lb.backends;
        stats = insert service no_stats lb.stats;
      }
      | some ps ↦ record lb { backends = insert service (ps ++ p ∷ []) lb.backends }
    ]

-- The backends without the first one of the address.
unfoldable pub without_first : Store → Text → List Pointer → List Pointer
without_first σ address [] = []
without_first σ address (p ∷ ps) =
    if text_eq (σ p).address address then ps else p ∷ without_first σ address ps

unfoldable pub remove_backend : LoadBalancer → Store → Text → Text → LoadBalancer
unfolding without_first
remove_backend lb σ address service = elim (lookup service lb.backends) [
  | none ↦ lb
  | some ps ↦ record lb { backends = insert service (without_first σ address ps) lb.backends }
]

unfoldable pub next_backend :
    LoadBalancer → (ℕ → ℕ) → Store → Text → Text → Option Pointer × LoadBalancer
next_backend lb intn σ service client = elim (lookup service lb.backends) [
  | none ↦ (none, lb)
  | some [] ↦ (none, lb)
  | some (p ∷ ps) ↦
      let (q, algorithm) = select lb.algorithm intn σ (p ∷ ps) service client in
      (q, record lb { algorithm = algorithm })
]

unfoldable pub get_stats : LoadBalancer → Text → LoadBalancerStats
unfolding no_stats
get_stats lb service = elim (lookup service lb.stats) [ none ↦ no_stats | some s ↦ s ]

-- What a check learns: a TCP dial that returns a connection; the status of an HTTP response.
pub record Probe : Type 0 where
  pub dial : Text → ℕ → ℤ → Bool
  pub get : Text → ℕ → Text → ℤ → Option ℕ

unfoldable pub check_http : Probe → Backend → HealthCheckOptions → Bool
unfolding text_eq
check_http probe b opts =
    elim (probe.get b.address b.port
      (if text_eq opts.http_path [] then codes "/" else opts.http_path) opts.timeout) [
        | none ↦ false
        | some status ↦ leb 200 status && ltb status 400
      ]

unfoldable pub check_backend_health : Probe → Backend → HealthCheckOptions → Bool
unfolding check_http text_eq
check_backend_health probe b opts =
    if text_eq opts.protocol (codes "HTTP")
    then check_http probe b opts
    else probe.dial b.address b.port opts.timeout

unfoldable pub check_all : Probe → HealthCheckOptions → List Pointer → Store → Store
unfolding check_backend_health update set_healthy
check_all probe opts [] σ = σ
check_all probe opts (p ∷ ps) σ =
    check_all probe opts ps (update σ p (set_healthy (check_backend_health probe (σ p) opts)))

unfoldable pub all_pointers : Dict (List Pointer) → List Pointer
all_pointers [] = []
all_pointers ((service, ps) ∷ m) = ps ++ all_pointers m

unfoldable pub do_health_check : LoadBalancer → Probe → Store → Store
do_health_check lb probe σ =
    check_all probe lb.config.health_check_opts (all_pointers lb.backends) σ

-- `Stop` closes the channel, or finds it closed.
unfoldable pub stop : LoadBalancer → LoadBalancer
stop lb = if lb.stopped then lb else record lb { stopped = true }
