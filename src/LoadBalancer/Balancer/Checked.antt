-- ===== src/LoadBalancer/Balancer/Checked.antt =====
-- `NextBackend` behind `doHealthCheck` (internal/loadbalancer/algorithms.go, health.go).
use helios_lb.Prelude.{
  ℕ, zero, suc, ◌≡◌, sym, ◌∙◌, ap, ◌⊎◌, inl, inr, Bool-cases, true, List, [], ◌∷◌, ◌++◌, some,
  get_elem?, Text, text_eq, Dict, lookup,
}
use mathlib.Core.Option.{some-injective}
use helios_lb.LoadBalancer.Types.{Pointer, Store}
use helios_lb.LoadBalancer.Algorithms.Least.{Holds}
use helios_lb.LoadBalancer.Balancer.{
  LoadBalancer, Probe, check_backend_health, all_pointers, do_health_check, next_backend,
}
use helios_lb.LoadBalancer.Balancer.Selection.{IsRoundRobin, next_backend_registered}
use helios_lb.LoadBalancer.Balancer.Health.{do_health_check_tells}

Holds-left :
    (xs ys : List Pointer) (i : ℕ) (p : Pointer) → get_elem? xs i ≡ some p → Holds (xs ++ ys) p
Holds-left [] ys i p e = cc
Holds-left (x ∷ xs) ys zero p e = (0, e)
Holds-left (x ∷ xs) ys (suc i) p e = let (j, h) = Holds-left xs ys i p e in (suc j, h)

Holds-right : (xs ys : List Pointer) (p : Pointer) → Holds ys p → Holds (xs ++ ys) p
Holds-right [] ys p h = h
Holds-right (x ∷ xs) ys p h = let (j, e) = Holds-right xs ys p h in (suc j, e)

-- The backends of a service are among all backends.
lookup-all_pointers :
    (service : Text) (m : Dict (List Pointer)) (ps : List Pointer) (p : Pointer)
    → lookup service m ≡ some ps
    → Holds ps p
    → Holds (all_pointers m) p
unfolding lookup all_pointers
lookup-all_pointers service [] ps p e h = cc
lookup-all_pointers service ((s, qs) ∷ m) ps p e (i, h) = elim (Bool-cases (text_eq s service)) [
  | inl t ↦
      let same : qs ≡ ps = some-injective qs ps (rw (lookup, t) at e) in
      Holds-left qs (all_pointers m) i p (ap (λ x. get_elem? x i) same ∙ h)
  | inr t ↦
      Holds-right qs (all_pointers m) p
        (lookup-all_pointers service m ps p (rw (lookup, t) at e) (i, h))
]

-- Behind a health check, and until the next write to a backend, `NextBackend` returns only backends
-- registered for the service whose check has succeeded, unless the algorithm is round robin, when it
-- returns registered ones.
pub next_backend-checked :
    (lb : LoadBalancer) (probe : Probe) (intn : ℕ → ℕ) (σ : Store) (service client : Text)
    (p : Pointer)
    → (next_backend lb intn (do_health_check lb probe σ) service client).0 ≡ some p
    → (ps : List Pointer) × (lookup service lb.backends ≡ some ps)
      × Holds ps p
      × (IsRoundRobin lb.algorithm
          ⊎ (check_backend_health probe (σ p) lb.config.health_check_opts ≡ true))
next_backend-checked lb probe intn σ service client p e =
    let checked = do_health_check lb probe σ in
    let (ps, l, h, u) = next_backend_registered lb intn checked service client p e in
    let told =
      do_health_check_tells lb probe σ p (lookup-all_pointers service lb.backends ps p l h) in
    (ps, l, h, elim u [ inl r ↦ inl r | inr t ↦ inr (sym told ∙ t) ])
