-- ===== src/Tests/Balancing.antt =====
-- Instances of the theorems about internal/loadbalancer.
use helios_lb.Prelude.{
  ◌⊎◌, ℕ, ◌+◌, ◌%◌, ◌<◌, ◌≡◌, refl, true, false, List, [], ◌∷◌, none, some, if◌then◌else◌, ◌==◌,
  get_elem?, take, arith, Text, codes, text_eq, lookup,
}
use helios_lb.Prelude.Int.{pos}
use helios_lb.LoadBalancer.Types.{
  Backend, Pointer, Store, is_healthy, max_int32, round_robin, ip_hash_algorithm,
}
use helios_lb.LoadBalancer.Algorithms.{
  current, round_robin_select, least_connection_select, weighted_select, healthy_backends,
}
use helios_lb.LoadBalancer.Algorithms.Rotation.{selection, round_robin_covers}
use helios_lb.LoadBalancer.Algorithms.Least.{Holds, LeastOf, least_connection_select-LeastOf}
use helios_lb.LoadBalancer.Algorithms.Shares.{HasWeights, weight_sum, after, weighted_shares}
use helios_lb.LoadBalancer.Balancer.{
  LoadBalancer, BalancerConfig, next_backend, Probe, do_health_check, check_backend_health,
  all_pointers,
}
use helios_lb.LoadBalancer.Balancer.Checked.{next_backend-checked}
use helios_lb.LoadBalancer.Balancer.Selection.{IsRoundRobin, next_backend_registered}

abbrev web : Text
web = codes "web"

abbrev backend : ℕ → ℕ → ℕ → Backend
backend healthy connections weight = record {
  address = codes "10.0.0.1";
  port = 80;
  healthy = healthy;
  connections = connections;
  service_name = web;
  weight = pos weight;
}

-- Three backends: a healthy one, one that is not, and a healthy one of weight two.
abbrev three : Store
three p = if p == 0 then backend 1 5 1 else if p == 1 then backend 0 0 1 else backend 1 3 2

covers_example :
    (k : ℕ) × (k < 3)
    × ((current [] web + 1 + k) % 3 ≡ 1)
    × (selection k [] (0 ∷ 1 ∷ 2 ∷ []) web ≡ get_elem? (0 ∷ 1 ∷ 2 ∷ []) 1)
unfolding current lookup
covers_example = round_robin_covers [] 0 (1 ∷ 2 ∷ []) web 1 (omega arith) (omega arith)

least_example :
    LeastOf three (0 ∷ 1 ∷ 2 ∷ []) max_int32 none (least_connection_select three (0 ∷ 1 ∷ 2 ∷ []))
least_example = least_connection_select-LeastOf three (0 ∷ 1 ∷ 2 ∷ [])

abbrev weight_of : Pointer → ℕ
weight_of p = if p == 0 then 1 else 2

three_weights : HasWeights [] three weight_of (healthy_backends three (0 ∷ 1 ∷ 2 ∷ []))
unfolding healthy_backends is_healthy helios_lb.LoadBalancer.Algorithms.resolve_weight
three_weights = (refl, (refl, tt))

three_positive : 0 < weight_sum weight_of (healthy_backends three (0 ∷ 1 ∷ 2 ∷ []))
unfolding healthy_backends is_healthy
three_positive = omega arith

abbrev three_healthy : List Pointer
three_healthy = healthy_backends three (0 ∷ 1 ∷ 2 ∷ [])

shares_example :
    (k : ℕ) × (k < weight_sum weight_of three_healthy)
    × ((current [] web + 1 + k) % weight_sum weight_of three_healthy
        ≡ weight_sum weight_of (take 1 three_healthy) + 1)
    × ((weighted_select
          (after [] three weight_of 0 (1 ∷ 2 ∷ []) web three_weights three_positive k [])
          []
          three
          (0 ∷ 1 ∷ 2 ∷ [])
          web).0
        ≡ some 2)
unfolding current lookup healthy_backends is_healthy
shares_example =
    weighted_shares [] three weight_of 0 (1 ∷ 2 ∷ []) web three_weights three_positive [] 1 1 2
      (omega arith) refl (omega arith)

abbrev config : BalancerConfig
config = record {
  type = round_robin;
  health_check = true;
  check_interval = pos 0;
  metrics_enabled = true;
  weights = [];
  health_check_opts = record { timeout = pos 0; protocol = []; http_path = [] };
}

-- A load balancer with two backends of one service.
abbrev balancer : LoadBalancer
balancer = record {
  backends = (web, 0 ∷ 1 ∷ []) ∷ [];
  stats = [];
  config = config;
  algorithm = ip_hash_algorithm;
  stopped = false;
}

next_example :
    (ps : List Pointer) × (lookup web balancer.backends ≡ some ps)
    × Holds ps 0
    × (IsRoundRobin balancer.algorithm ⊎ (is_healthy (three 0) ≡ true))
unfolding next_backend lookup text_eq helios_lb.LoadBalancer.Algorithms.select
    helios_lb.LoadBalancer.Algorithms.ip_hash_select healthy_backends is_healthy
    helios_lb.LoadBalancer.Algorithms.fnv32a
next_example = next_backend_registered balancer (λ n. 0) three web (codes "1.2.3.4") 0 refl

-- Only port 80 answers.
abbrev probe : Probe
probe = record { dial = λ a p t. p == 80; get = λ a p path t. none }

-- The check finds the backend healthy that was not.
checked_example :
    (ps : List Pointer) × (lookup web balancer.backends ≡ some ps)
    × Holds ps 1
    × (IsRoundRobin balancer.algorithm
        ⊎ (check_backend_health probe (three 1) balancer.config.health_check_opts ≡ true))
unfolding next_backend lookup text_eq helios_lb.LoadBalancer.Algorithms.select
    helios_lb.LoadBalancer.Algorithms.ip_hash_select healthy_backends is_healthy do_health_check
    helios_lb.LoadBalancer.Balancer.check_all all_pointers helios_lb.LoadBalancer.Algorithms.fnv32a
checked_example = next_backend-checked balancer probe (λ n. 0) three web (codes "1.2.3.4") 1 refl
