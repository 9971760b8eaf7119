-- ===== src/LoadBalancer/Types.antt =====
-- internal/loadbalancer/types.go and the accessors of backend.go and balancer.go. A `*Backend` is a
-- number into a store, so that two lists can share a backend; `int32` is its bit pattern.
use helios_lb.Prelude.{
  ℕ, ◌+◌, ◌-◌, ◌%◌, ◌^◌, Bool, true, false, List, ltb, ◌==◌, if◌then◌else◌, Text, Dict,
}
use helios_lb.Prelude.Int.{ℤ}

pub data BalancerType : Type 0 where
  round_robin least_connection weighted_round_robin ip_hash random_selection : BalancerType
  other_type : Text → BalancerType

pub record Weight : Type 0 where
  pub service_name : Text
  pub weight : ℤ

pub record Backend : Type 0 where
  pub address : Text
  pub port : ℕ
  -- `healthy int32`
  pub healthy : ℕ
  pub connections : ℕ
  pub service_name : Text
  pub weight : ℤ

abbrev pub Pointer : Type 0
Pointer = ℕ

-- What each pointer points to.
abbrev pub Store : Type 0
Store = Pointer → Backend

unfoldable pub is_healthy : Backend → Bool
is_healthy b = b.healthy == 1

unfoldable pub set_healthy : Bool → Backend → Backend
set_healthy true b = record b { healthy = 1 }
set_healthy false b = record b { healthy = 0 }

-- A write through a pointer.
unfoldable pub update : Store → Pointer → (Backend → Backend) → Store
update σ p f q = if q == p then f (σ q) else σ q

-- `atomic.AddInt32(&backend.Connections, 1)` and `-1`, on the bit pattern.
unfoldable pub increment_connections : Store → Pointer → Store
unfolding update
increment_connections σ p =
    update σ p (λ b. record b { connections = (b.connections + 1) % 2 ^ 32 })

unfoldable pub decrement_connections : Store → Pointer → Store
unfolding update
decrement_connections σ p =
    update σ p (λ b. record b { connections = (b.connections + (2 ^ 32 - 1)) % 2 ^ 32 })

-- An `int32` moved up by 2³¹, which keeps its order.
abbrev pub biased : ℕ → ℕ
biased c = (c + 2 ^ 31) % 2 ^ 32

-- `a < b` on `int32`.
abbrev pub int32_lt : ℕ → ℕ → Bool
int32_lt a b = ltb (biased a) (biased b)

-- `int32(^uint32(0) >> 1)`.
abbrev pub max_int32 : ℕ
max_int32 = 2 ^ 31 - 1

pub record LoadBalancerStats : Type 0 where
  pub total_connections : ℕ
  pub active_backends : ℕ
  pub healthy_backends : ℕ

unfoldable pub no_stats : LoadBalancerStats
no_stats = record { total_connections = 0; active_backends = 0; healthy_backends = 0 }

-- `RoundRobinState.current` of each service.
abbrev pub RoundRobinStates : Type 0
RoundRobinStates = Dict ℕ

-- An `Algorithm` with the state of its implementation.
pub data Algorithm : Type 0 where
  round_robin_algorithm : RoundRobinStates → Algorithm
  least_connection_algorithm : Algorithm
  weighted_round_robin_algorithm : RoundRobinStates → List Weight → Algorithm
  ip_hash_algorithm : Algorithm
  random_algorithm : Algorithm
