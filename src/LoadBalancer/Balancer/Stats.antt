-- ===== src/LoadBalancer/Balancer/Stats.antt =====
-- `GetStats` (internal/loadbalancer/metrics.go) over any sequence of operations.
use helios_lb.Prelude.{ℕ, ◌≡◌, refl, List, [], ◌∷◌, arith, Text, lookup, lookup-insert}
use helios_lb.LoadBalancer.Types.{Pointer, Store, no_stats}
use helios_lb.LoadBalancer.Balancer.{
  LoadBalancer, BalancerConfig, new_load_balancer, add_backend, remove_backend, next_backend,
  get_stats, stop,
}

pub data Operation : Type 0 where
  adds : Store → Pointer → Operation
  removes : Store → Text → Text → Operation
  asks : (ℕ → ℕ) → Store → Text → Text → Operation
  stops : Operation

unfoldable pub operate : LoadBalancer → Operation → LoadBalancer
operate lb (adds σ p) = add_backend lb σ p
operate lb (removes σ address service) = remove_backend lb σ address service
operate lb (asks intn σ service client) = (next_backend lb intn σ service client).1
operate lb stops = stop lb

unfoldable pub operate_all : LoadBalancer → List Operation → LoadBalancer
operate_all lb [] = lb
operate_all lb (o ∷ os) = operate_all (operate lb o) os

abbrev AllZero : LoadBalancer → Type 0
AllZero lb = (s : Text) → get_stats lb s ≡ no_stats

operate-AllZero : (lb : LoadBalancer) (o : Operation) → AllZero lb → AllZero (operate lb o)
unfolding operate get_stats
operate-AllZero lb (adds σ p) z s =
    unfold add_backend in ground (arith, z s, lookup-insert (σ p).service_name s no_stats lb.stats)
operate-AllZero lb (removes σ address service) z s = unfold remove_backend in ground (arith, z s)
operate-AllZero lb (asks intn σ service client) z s = unfold next_backend in ground (arith, z s)
operate-AllZero lb stops z s = unfold stop in ground (arith, z s)

operate_all-AllZero :
    (os : List Operation) (lb : LoadBalancer) → AllZero lb → AllZero (operate_all lb os)
unfolding operate_all
operate_all-AllZero [] lb z = z
operate_all-AllZero (o ∷ os) lb z = operate_all-AllZero os (operate lb o) (operate-AllZero lb o z)

-- The statistics of every service are zero after any sequence of operations on a new load balancer:
-- nothing updates them.
pub get_stats_zero :
    (c : BalancerConfig) (os : List Operation) (s : Text)
    → get_stats (operate_all (new_load_balancer c) os) s ≡ no_stats
get_stats_zero c os s =
    operate_all-AllZero os (new_load_balancer c)
      (λ t. unfold get_stats new_load_balancer lookup in refl) s
