-- ===== src/LoadBalancer/Algorithms/Rotation.antt =====
-- Round robin (internal/loadbalancer/algorithms.go): consecutive selections go round the list.
use native.Mathlib.Nat.{mod-lt, mod-eq_of_lt, add-mod-mod, div-add-mod, mul-add-mod_self_left}
use helios_lb.Prelude.{
  ℕ, zero, suc, ◌+◌, ◌-◌, ◌*◌, ◌/◌, ◌%◌, ◌^◌, ◌<◌, ◌≡◌, refl, ◌∙◌, ap, List, [], ◌∷◌, Option,
  length, get_elem?, arith, Text, if◌then◌else◌, text_eq, text_eq_refl, insert, lookup-insert,
  false,
}
use helios_lb.LoadBalancer.Types.{Pointer, RoundRobinStates}
use helios_lb.LoadBalancer.Algorithms.{current, next_current, round_robin_select}

-- Counting up from any number, every residue comes up within one round.
pub residue : ℕ → ℕ → ℕ → ℕ
residue m n j = (j + n - m % n) % n

pub residue_hits : (m n j : ℕ) → j < n → (residue m n j < n) × ((m + residue m n j) % n ≡ j)
unfolding residue
residue_hits m n j h = (mod-lt _ (omega arith), hit)
  where
    room : m % n < n
    room = mod-lt _ (omega arith)

    regroup : m + (j + n - m % n) ≡ n * (m / n + 1) + j
    regroup = omega (arith, div-add-mod m n, room)

    hit : (m + (j + n - m % n) % n) % n ≡ j
    hit =
        add-mod-mod m (j + n - m % n) n
        ∙ rw regroup (mul-add-mod_self_left n (m / n + 1) j)
        ∙ mod-eq_of_lt h

pub current-insert :
    (states : RoundRobinStates) (s t : Text) (c : ℕ)
    → current (insert s c states) t ≡ (if text_eq s t then c else current states t)
unfolding current
current-insert states s t c = ground (arith, lookup-insert s t c states)

-- The state after `k` selections of a service.
unfoldable pub rounds : ℕ → RoundRobinStates → List Pointer → Text → RoundRobinStates
rounds zero states ps service = states
rounds (suc k) states ps service = rounds k (round_robin_select states ps service).1 ps service

-- A selection adds one to the counter of its service, until the counter wraps.
current-select :
    (states : RoundRobinStates) (p : Pointer) (ps : List Pointer) (service : Text)
    → current states service + 1 < 2 ^ 32
    → current (round_robin_select states (p ∷ ps) service).1 service ≡ current states service + 1
unfolding round_robin_select next_current
current-select states p ps service h =
    current-insert states service service (next_current states service)
    ∙ rw (text_eq_refl service) (mod-eq_of_lt h)

current-rounds :
    (k : ℕ) (states : RoundRobinStates) (p : Pointer) (ps : List Pointer) (service : Text)
    → current states service + k < 2 ^ 32
    → current (rounds k states (p ∷ ps) service) service ≡ current states service + k
unfolding rounds
current-rounds zero states p ps service h = omega arith
current-rounds (suc k) states p ps service h =
    let e = current-select states p ps service (omega arith) in
    omega (
      arith,
      e,
      current-rounds k (round_robin_select states (p ∷ ps) service).1 p ps service
          (rw e (omega arith)),
    )

-- The selection behind `k` others.
unfoldable pub selection : ℕ → RoundRobinStates → List Pointer → Text → Option Pointer
unfolding rounds
selection k states ps service = (round_robin_select (rounds k states ps service) ps service).0

selection_lem :
    (k : ℕ) (states : RoundRobinStates) (p : Pointer) (ps : List Pointer) (service : Text)
    → current states service + k + 1 < 2 ^ 32
    → selection k states (p ∷ ps) service
      ≡ get_elem? (p ∷ ps) ((current states service + 1 + k) % length (p ∷ ps))
unfolding selection round_robin_select next_current
selection_lem k states p ps service h =
    let e : next_current (rounds k states (p ∷ ps) service) service
        ≡ current states service + 1 + k =
      ap (λ c. (c + 1) % 2 ^ 32) (current-rounds k states p ps service (omega arith))
      ∙ mod-eq_of_lt (omega arith)
      ∙ omega arith in
    ap (λ c. get_elem? (p ∷ ps) (c % length (p ∷ ps))) e

-- As many consecutive selections as a service has backends reach every backend, each at its own
-- selection, if the counter does not wrap among them.
pub round_robin_covers :
    (states : RoundRobinStates) (p : Pointer) (ps : List Pointer) (service : Text) (j : ℕ)
    → current states service + length (p ∷ ps) < 2 ^ 32
    → j < length (p ∷ ps)
    → (k : ℕ) × (k < length (p ∷ ps))
      × ((current states service + 1 + k) % length (p ∷ ps) ≡ j)
      × (selection k states (p ∷ ps) service ≡ get_elem? (p ∷ ps) j)
round_robin_covers states p ps service j h l =
    let m = current states service + 1 in
    let n = length (p ∷ ps) in
    let (lt, hit) = residue_hits m n j l in
    (
      residue m n j,
      lt,
      hit,
      selection_lem (residue m n j) states p ps service (omega arith) ∙ ap (get_elem? (p ∷ ps)) hit,
    )

-- A selection for one service leaves the counters of the others.
pub round_robin_others :
    (states : RoundRobinStates) (ps : List Pointer) (s t : Text)
    → text_eq s t ≡ false
    → current (round_robin_select states ps s).1 t ≡ current states t
unfolding round_robin_select
round_robin_others states [] s t h = refl
round_robin_others states (p ∷ ps) s t h = rw (current-insert states s t _, h) refl
