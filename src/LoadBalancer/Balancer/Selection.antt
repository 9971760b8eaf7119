-- ===== src/LoadBalancer/Balancer/Selection.antt =====
-- `NextBackend` (internal/loadbalancer/algorithms.go) for every algorithm: which backends it can return.
use mathlib.Core.Option.{some-injective}
use helios_lb.Prelude.{
  ◌⊎◌, inl, inr, subst, ℕ, suc, ◌≡◌, refl, sym, ◌∙◌, inl, inr, Bool, true, false, List, [], ◌∷◌,
  Option, none, some, if◌then◌else◌, get_elem?, keep_if, keep_if-get_elem?, Text, Bool-cases,
  lookup,
}
use helios_lb.Prelude.Int.{ℤ, pos, ◌-ℤ◌, ltb_ℤ}
use helios_lb.LoadBalancer.Types.{
  Pointer, Store, Weight, is_healthy, RoundRobinStates, Algorithm, round_robin_algorithm,
  least_connection_algorithm, weighted_round_robin_algorithm, ip_hash_algorithm, random_algorithm,
}
use helios_lb.LoadBalancer.Algorithms.{
  healthy_backends, weighted_loop, or_first, round_robin_select, least_connection_select,
  weighted_select, ip_hash_select, random_select, select, resolve_weight, total_weight, is_zero,
  next_current, remainder,
}
use helios_lb.LoadBalancer.Algorithms.Least.{Holds, least_connection_select-LeastOf}
use helios_lb.LoadBalancer.Balancer.{LoadBalancer, next_backend}

-- A result that is not nil stands in the list.
abbrev From : List Pointer → Option Pointer → Type 0
From ps r = (p : Pointer) → r ≡ some p → Holds ps p

-- And is healthy.
abbrev FromHealthy : Store → List Pointer → Option Pointer → Type 0
FromHealthy σ ps r = (p : Pointer) → r ≡ some p → Holds ps p × (is_healthy (σ p) ≡ true)

Holds-suc : (q : Pointer) (ps : List Pointer) (p : Pointer) → Holds ps p → Holds (q ∷ ps) p
Holds-suc q ps p (i, e) = (suc i, e)

keep_if-Holds :
    (t : Pointer → Bool) (ps : List Pointer) (i : ℕ) (p : Pointer)
    → get_elem? (keep_if t ps) i ≡ some p
    → Holds ps p × (t p ≡ true)
keep_if-Holds t ps i p e = keep_if-get_elem? t ps i p e

healthy-FromHealthy :
    (σ : Store) (ps : List Pointer) (i : ℕ) → FromHealthy σ ps (get_elem? (healthy_backends σ ps) i)
unfolding healthy_backends
healthy-FromHealthy σ ps i p e = keep_if-Holds (λ q. is_healthy (σ q)) ps i p e

-- The weighted loop returns an element of its list.
weighted_loop-From :
    (ws : List Weight) (σ : Store) (ps : List Pointer) (point : ℤ)
    → From ps (weighted_loop ws σ ps point)
unfolding weighted_loop
weighted_loop-From ws σ [] point p e = cc
weighted_loop-From ws σ (q ∷ ps) point p e =
    let next = point -ℤ resolve_weight ws (σ q) in
    elim (Bool-cases (ltb_ℤ next (pos 0))) [
      | inl l ↦ (0, rw (weighted_loop, l) at e)
      | inr l ↦ Holds-suc q ps p (weighted_loop-From ws σ ps next p (rw (weighted_loop, l) at e))
    ]

or_first-From : (r : Option Pointer) (ps : List Pointer) → From ps r → From ps (or_first r ps)
unfolding or_first
or_first-From none ps h p e = (0, e)
or_first-From (some q) ps h p e = h p e

weighted-FromHealthy :
    (states : RoundRobinStates) (ws : List Weight) (σ : Store) (ps : List Pointer) (service : Text)
    → FromHealthy σ ps (weighted_select states ws σ ps service).0
unfolding weighted_select
weighted-FromHealthy states ws σ [] service p e = cc
weighted-FromHealthy states ws σ (b ∷ bs) service p e =
    let hs = healthy_backends σ (b ∷ bs) in
    let total = total_weight ws σ hs in
    let point = pos (remainder (next_current states service) total) in
    elim (Bool-cases (is_zero total)) [
      | inl z ↦ let n : none ≡ some p = rw (weighted_select, z) at e in cc
      | inr z ↦
          let (i, k) =
            or_first-From (weighted_loop ws σ hs point) hs (weighted_loop-From ws σ hs point) p
              (rw (weighted_select, z) at e) in
          healthy-FromHealthy σ (b ∷ bs) i p k
    ]

-- Every algorithm but round robin looks at the health of a backend.
abbrev pub ChecksHealth : Algorithm → Type 0
ChecksHealth (round_robin_algorithm states) = ⊥
ChecksHealth least_connection_algorithm = Unit {0}
ChecksHealth (weighted_round_robin_algorithm states ws) = Unit {0}
ChecksHealth ip_hash_algorithm = Unit {0}
ChecksHealth random_algorithm = Unit {0}

abbrev pub IsRoundRobin : Algorithm → Type 0
IsRoundRobin (round_robin_algorithm states) = Unit {0}
IsRoundRobin least_connection_algorithm = ⊥
IsRoundRobin (weighted_round_robin_algorithm states ws) = ⊥
IsRoundRobin ip_hash_algorithm = ⊥
IsRoundRobin random_algorithm = ⊥

health_checked_or_not : (a : Algorithm) (P : Type 0) → (ChecksHealth a → P) → IsRoundRobin a ⊎ P
health_checked_or_not (round_robin_algorithm states) P f = inl tt
health_checked_or_not least_connection_algorithm P f = inr (f tt)
health_checked_or_not (weighted_round_robin_algorithm states ws) P f = inr (f tt)
health_checked_or_not ip_hash_algorithm P f = inr (f tt)
health_checked_or_not random_algorithm P f = inr (f tt)

-- What a selection may return.
abbrev pub Selects : Algorithm → Store → List Pointer → Option Pointer → Type 0
Selects a σ ps r =
    (p : Pointer) → r ≡ some p → Holds ps p × (ChecksHealth a → is_healthy (σ p) ≡ true)

healthy-Selects :
    (a : Algorithm) (σ : Store) (ps : List Pointer) (r : Option Pointer)
    → FromHealthy σ ps r
    → Selects a σ ps r
healthy-Selects a σ ps r h p e = ((h p e).0, λ _. (h p e).1)

guarded-FromHealthy :
    (t : Bool) (σ : Store) (ps : List Pointer) (r : Option Pointer)
    → FromHealthy σ ps r
    → FromHealthy σ ps (if t then none else r)
guarded-FromHealthy true σ ps r h p e = cc
guarded-FromHealthy false σ ps r h p e = h p e

round_robin-Selects :
    (states : RoundRobinStates) (σ : Store) (ps : List Pointer) (service : Text)
    → Selects (round_robin_algorithm states) σ ps (round_robin_select states ps service).0
unfolding round_robin_select
round_robin-Selects states σ [] service p e = cc
round_robin-Selects states σ (b ∷ bs) service p e = ((_, e), λ x. absurd x)

least-FromHealthy :
    (σ : Store) (ps : List Pointer) → FromHealthy σ ps (least_connection_select σ ps)
least-FromHealthy σ ps p e = elim (least_connection_select-LeastOf σ ps) [
  | inl (n, x) ↦ let c : none ≡ some p = sym n ∙ e in cc
  | inr (q, s, h, u, l, x) ↦
      let same : q ≡ p = some-injective q p (sym s ∙ e) in
      subst (λ z. Holds ps z × (is_healthy (σ z) ≡ true)) same (h, u)
]

select-Selects :
    (a : Algorithm) (intn : ℕ → ℕ) (σ : Store) (ps : List Pointer) (service client : Text)
    → Selects a σ ps (select a intn σ ps service client).0
unfolding select
select-Selects (round_robin_algorithm states) intn σ ps service client =
    round_robin-Selects states σ ps service
select-Selects least_connection_algorithm intn σ ps service client =
    healthy-Selects least_connection_algorithm σ ps _ (least-FromHealthy σ ps)
select-Selects (weighted_round_robin_algorithm states ws) intn σ ps service client =
    healthy-Selects (weighted_round_robin_algorithm states ws) σ ps _
      (weighted-FromHealthy states ws σ ps service)
select-Selects ip_hash_algorithm intn σ ps service client =
    healthy-Selects ip_hash_algorithm σ ps _
      (unfold ip_hash_select in guarded-FromHealthy _ σ ps _ (healthy-FromHealthy σ ps _))
select-Selects random_algorithm intn σ ps service client =
    healthy-Selects random_algorithm σ ps _
      (unfold random_select in guarded-FromHealthy _ σ ps _ (healthy-FromHealthy σ ps _))

-- `NextBackend` returns only backends registered for the service, and only healthy ones unless the
-- algorithm is round robin.
pub next_backend_registered :
    (lb : LoadBalancer) (intn : ℕ → ℕ) (σ : Store) (service client : Text) (p : Pointer)
    → (next_backend lb intn σ service client).0 ≡ some p
    → (ps : List Pointer) × (lookup service lb.backends ≡ some ps)
      × Holds ps p
      × (IsRoundRobin lb.algorithm ⊎ (is_healthy (σ p) ≡ true))
unfolding next_backend
next_backend_registered lb intn σ service client p e = by_list (lookup service lb.backends) refl
  where
    by_list :
        (m : Option (List Pointer))
        → lookup service lb.backends ≡ m
        → (ps : List Pointer) × (lookup service lb.backends ≡ some ps)
          × Holds ps p
          × (IsRoundRobin lb.algorithm ⊎ (is_healthy (σ p) ≡ true))
    by_list none l = let c : none ≡ some p = rw (next_backend, l) at e in cc
    by_list (some []) l = let c : none ≡ some p = rw (next_backend, l) at e in cc
    by_list (some (q ∷ qs)) l =
        let (h, u) =
          select-Selects lb.algorithm intn σ (q ∷ qs) service client p
            (rw (next_backend, l) at e) in
        (q ∷ qs, l, h, health_checked_or_not lb.algorithm (is_healthy (σ p) ≡ true) u)
