-- ===== src/LoadBalancer/Report.antt =====
-- `UpdateMetrics` (internal/loadbalancer/metrics.go): what it records of the backends.
use mathlib.Core.Option.{some-injective}
use helios_lb.Prelude.{
  ℕ, zero, suc, ◌≡◌, refl, ap, subst, List, [], ◌∷◌, ◌++◌, some, get_elem?, Text, Dict,
}
use helios_lb.Prelude.Int.{to_int32}
use helios_lb.Metrics.{
  Sample, set, backend_health, backend_connections, flag, record_backend_health,
  record_backend_connections,
}
use helios_lb.LoadBalancer.Types.{Backend, Pointer, Store, is_healthy}
use helios_lb.LoadBalancer.Balancer.{LoadBalancer}

unfoldable pub report_backend : Text → Backend → List Sample
unfolding record_backend_health record_backend_connections
report_backend service b =
    record_backend_health b.address service (is_healthy b)
    ++ record_backend_connections b.address service (to_int32 b.connections)

unfoldable pub report_backends : Store → Text → List Pointer → List Sample
unfolding report_backend
report_backends σ service [] = []
report_backends σ service (p ∷ ps) = report_backend service (σ p) ++ report_backends σ service ps

unfoldable pub report_services : Store → Dict (List Pointer) → List Sample
unfolding report_backends
report_services σ [] = []
report_services σ ((service, ps) ∷ m) = report_backends σ service ps ++ report_services σ m

unfoldable pub update_metrics : LoadBalancer → Store → List Sample
unfolding report_services
update_metrics lb σ = report_services σ lb.backends

-- The sample stands in the list.
abbrev pub Recorded : List Sample → Sample → Type 0
Recorded xs x = (i : ℕ) × (get_elem? xs i ≡ some x)

Recorded-right : (xs ys : List Sample) (x : Sample) → Recorded ys x → Recorded (xs ++ ys) x
Recorded-right [] ys x h = h
Recorded-right (y ∷ xs) ys x h = let (i, e) = Recorded-right xs ys x h in (suc i, e)

Recorded-left : (xs ys : List Sample) (x : Sample) → Recorded xs x → Recorded (xs ++ ys) x
Recorded-left [] ys x (i, e) = cc
Recorded-left (y ∷ xs) ys x (zero, e) = (zero, e)
Recorded-left (y ∷ xs) ys x (suc i, e) = let (j, f) = Recorded-left xs ys x (i, e) in (suc j, f)

-- Both gauges of a backend, at what the backend holds.
abbrev pub Reports : List Sample → Text → Backend → Type 0
Reports xs service b =
    Recorded xs (set backend_health (b.address ∷ service ∷ []) (flag (is_healthy b)))
    × Recorded xs (set backend_connections (b.address ∷ service ∷ []) (to_int32 b.connections))

Reports-right :
    (xs ys : List Sample) (s : Text) (b : Backend) → Reports ys s b → Reports (xs ++ ys) s b
Reports-right xs ys s b (h, c) = (Recorded-right xs ys _ h, Recorded-right xs ys _ c)

Reports-left :
    (xs ys : List Sample) (s : Text) (b : Backend) → Reports xs s b → Reports (xs ++ ys) s b
Reports-left xs ys s b (h, c) = (Recorded-left xs ys _ h, Recorded-left xs ys _ c)

report_backends-Reports :
    (σ : Store) (service : Text) (ps : List Pointer) (i : ℕ) (p : Pointer)
    → get_elem? ps i ≡ some p
    → Reports (report_backends σ service ps) service (σ p)
unfolding report_backends
report_backends-Reports σ service [] i p e = cc
report_backends-Reports σ service (q ∷ ps) zero p e =
    subst (λ z. Reports (report_backends σ service (q ∷ ps)) service (σ z)) (some-injective q p e)
      ((0, refl), (1, refl))
report_backends-Reports σ service (q ∷ ps) (suc i) p e =
    Reports-right (report_backend service (σ q)) (report_backends σ service ps) service (σ p)
      (report_backends-Reports σ service ps i p e)

report_services-Reports :
    (σ : Store) (m : Dict (List Pointer)) (j i : ℕ) (service : Text) (ps : List Pointer)
    (p : Pointer)
    → get_elem? m j ≡ some (service, ps)
    → get_elem? ps i ≡ some p
    → Reports (report_services σ m) service (σ p)
unfolding report_services
report_services-Reports σ [] j i service ps p e f = cc
report_services-Reports σ ((s, qs) ∷ m) zero i service ps p e f =
    let q : (s, qs) ≡ (service, ps) = some-injective _ _ e in
    let a : qs ≡ ps = ap (λ x. x.1) q in
    let b : s ≡ service = ap (λ x. x.0) q in
    rw (a, b)
      (Reports-left (report_backends σ service ps) (report_services σ m) service (σ p)
        (report_backends-Reports σ service ps i p f))
report_services-Reports σ ((s, qs) ∷ m) (suc j) i service ps p e f =
    Reports-right (report_backends σ s qs) (report_services σ m) service (σ p)
      (report_services-Reports σ m j i service ps p e f)

-- `UpdateMetrics` records, for each backend registered under a service, its health and its number
-- of connections, as an `int32`, with its address and that service.
pub update_metrics-Reports :
    (lb : LoadBalancer) (σ : Store) (j i : ℕ) (service : Text) (ps : List Pointer) (p : Pointer)
    → get_elem? lb.backends j ≡ some (service, ps)
    → get_elem? ps i ≡ some p
    → Reports (update_metrics lb σ) service (σ p)
unfolding update_metrics
update_metrics-Reports lb σ j i service ps p e f =
    report_services-Reports σ lb.backends j i service ps p e f
