-- ===== src/LoadBalancer/Algorithms.antt =====
-- internal/loadbalancer/algorithms.go. `Select` returns a pointer of the list, or nil, and the state
-- of the algorithm after it; `rand.Intn` is an argument. `int` is unbounded.
pub mod Rotation
pub mod Least
pub mod Shares
use Prim.Native.Nat.{bit_xor}
use helios_lb.Prelude.{
  ℕ, zero, suc, ◌+◌, ◌-◌, ◌*◌, ◌/◌, ◌%◌, ◌^◌, Bool, true, false, List, [], ◌∷◌, ◌++◌, Option, none,
  some, ltb, leb, ◌==◌, if◌then◌else◌, length, get_elem?, keep_if, Text, text_eq, lookup, insert,
}
use helios_lb.Prelude.Int.{ℤ, pos, negsuc, pos_part, neg_part, ◌+ℤ◌, ◌-ℤ◌, ltb_ℤ}
use helios_lb.LoadBalancer.Types.{
  BalancerType, round_robin, least_connection, weighted_round_robin, ip_hash, random_selection,
  other_type, Weight, Backend, Pointer, Store, is_healthy, int32_lt, max_int32, RoundRobinStates,
  Algorithm, round_robin_algorithm, least_connection_algorithm, weighted_round_robin_algorithm,
  ip_hash_algorithm, random_algorithm,
}

unfoldable pub new_algorithm : BalancerType → List Weight → Algorithm
new_algorithm least_connection ws = least_connection_algorithm
new_algorithm weighted_round_robin ws = weighted_round_robin_algorithm [] ws
new_algorithm ip_hash ws = ip_hash_algorithm
new_algorithm random_selection ws = random_algorithm
new_algorithm round_robin ws = round_robin_algorithm []
new_algorithm (other_type t) ws = round_robin_algorithm []

-- `state.current` of a service, which starts at zero.
unfoldable pub current : RoundRobinStates → Text → ℕ
current states service = elim (lookup service states) [ none ↦ 0 | some c ↦ c ]

-- `atomic.AddUint32(&state.current, 1)`.
unfoldable pub next_current : RoundRobinStates → Text → ℕ
unfolding current
next_current states service = (current states service + 1) % 2 ^ 32

unfoldable pub round_robin_select :
    RoundRobinStates → List Pointer → Text → Option Pointer × RoundRobinStates
unfolding next_current
round_robin_select states [] service = (none, states)
round_robin_select states (b ∷ bs) service =
    let c = next_current states service in
    (get_elem? (b ∷ bs) (c % length (b ∷ bs)), insert service c states)

-- The loop over the backends, with `leastConn` and `leastConnBackend`.
unfoldable pub least_loop : Store → List Pointer → ℕ → Option Pointer → Option Pointer
least_loop σ [] least found = found
least_loop σ (p ∷ ps) least found =
    let skip = least_loop σ ps least found in
    let take = least_loop σ ps (σ p).connections (some p) in
    if is_healthy (σ p) then (if int32_lt (σ p).connections least then take else skip) else skip

unfoldable pub least_connection_select : Store → List Pointer → Option Pointer
least_connection_select σ ps = least_loop σ ps max_int32 none

unfoldable pub configured_weight : List Weight → Text → ℤ → ℤ
configured_weight [] service w = w
configured_weight (x ∷ ws) service w =
    if text_eq x.service_name service then x.weight else configured_weight ws service w

unfoldable pub resolve_weight : List Weight → Backend → ℤ
unfolding configured_weight
resolve_weight ws b = elim (configured_weight ws b.service_name b.weight) [
  | pos zero ↦ pos 1
  | pos (suc n) ↦ pos (suc n)
  | negsuc n ↦ negsuc n
]

unfoldable pub healthy_backends : Store → List Pointer → List Pointer
healthy_backends σ ps = keep_if (λ p. is_healthy (σ p)) ps

unfoldable pub total_weight : List Weight → Store → List Pointer → ℤ
unfolding resolve_weight ◌+ℤ◌
total_weight ws σ [] = pos 0
total_weight ws σ (p ∷ ps) = resolve_weight ws (σ p) +ℤ total_weight ws σ ps

-- `int(current) % totalWeight`: the sign of the divisor is of no effect.
abbrev pub remainder : ℕ → ℤ → ℕ
remainder c w = c % (pos_part w + neg_part w)

unfoldable pub weighted_loop : List Weight → Store → List Pointer → ℤ → Option Pointer
unfolding resolve_weight ◌-ℤ◌
weighted_loop ws σ [] point = none
weighted_loop ws σ (p ∷ ps) point =
    let point' = point -ℤ resolve_weight ws (σ p) in
    let rest = weighted_loop ws σ ps point' in if ltb_ℤ point' (pos 0) then some p else rest

-- `return healthyBackends[0]` behind the loop.
unfoldable pub or_first : Option Pointer → List Pointer → Option Pointer
or_first none ps = get_elem? ps 0
or_first (some p) ps = some p

unfoldable pub is_zero : ℤ → Bool
is_zero (pos n) = n == 0
is_zero (negsuc n) = false

unfoldable pub touch : RoundRobinStates → Text → RoundRobinStates
unfolding current
touch states service = insert service (current states service) states

unfoldable pub weighted_select :
    RoundRobinStates → List Weight → Store → List Pointer → Text → Option Pointer × RoundRobinStates
weighted_select states ws σ [] service = (none, states)
weighted_select states ws σ (b ∷ bs) service =
    let healthy = healthy_backends σ (b ∷ bs) in
    let total = total_weight ws σ healthy in
    let c = next_current states service in
    let picked = or_first (weighted_loop ws σ healthy (pos (remainder c total))) healthy in
    if is_zero total then (none, touch states service) else (picked, insert service c states)

-- The UTF-8 bytes of a code point.
utf8 : ℕ → List ℕ
utf8 c =
    if ltb c 0x80
    then c ∷ []
    else if ltb c 0x800
    then (0xc0 + c / 64) ∷ (0x80 + c % 64) ∷ []
    else if ltb c 0x10000
    then (0xe0 + c / 4096) ∷ (0x80 + c / 64 % 64) ∷ (0x80 + c % 64) ∷ []
    else (0xf0 + c / 262144) ∷ (0x80 + c / 4096 % 64) ∷ (0x80 + c / 64 % 64) ∷ (0x80 + c % 64) ∷ []

fnv_bytes : List ℕ → ℕ → ℕ
fnv_bytes [] h = h
fnv_bytes (b ∷ bs) h = fnv_bytes bs (bit_xor h b * 16777619 % 2 ^ 32)

fnv_text : Text → ℕ → ℕ
unfolding utf8 fnv_bytes
fnv_text [] h = h
fnv_text (c ∷ s) h = fnv_text s (fnv_bytes (utf8 c) h)

-- `fnv.New32a` on a string.
unfoldable pub fnv32a : Text → ℕ
unfolding fnv_text
fnv32a s = fnv_text s 2166136261

unfoldable pub ip_hash_select : Store → List Pointer → Text → Option Pointer
ip_hash_select σ ps client =
    let healthy = healthy_backends σ ps in
    if length healthy == 0 then none else get_elem? healthy (fnv32a client % length healthy)

-- `intn n` is the number that `rand.Intn(n)` returns.
unfoldable pub random_select : (ℕ → ℕ) → Store → List Pointer → Option Pointer
random_select intn σ ps =
    let healthy = healthy_backends σ ps in
    if length healthy == 0 then none else get_elem? healthy (intn (length healthy))

-- `algorithm.Select`, by dynamic dispatch.
unfoldable pub select :
    Algorithm → (ℕ → ℕ) → Store → List Pointer → Text → Text → Option Pointer × Algorithm
select (round_robin_algorithm states) intn σ ps service client =
    let (p, states') = round_robin_select states ps service in (p, round_robin_algorithm states')
select least_connection_algorithm intn σ ps service client =
    (least_connection_select σ ps, least_connection_algorithm)
select (weighted_round_robin_algorithm states ws) intn σ ps service client =
    let (p, states') = weighted_select states ws σ ps service in
    (p, weighted_round_robin_algorithm states' ws)
select ip_hash_algorithm intn σ ps service client = (ip_hash_select σ ps client, ip_hash_algorithm)
select random_algorithm intn σ ps service client = (random_select intn σ ps, random_algorithm)
