-- ===== src/LoadBalancer/Balancer/Health.antt =====
-- `doHealthCheck` (internal/loadbalancer/health.go).
use mathlib.Core.Option.{some-injective}
use helios_lb.Prelude.{
  subst, ℕ, zero, suc, ◌≡◌, refl, sym, ◌∙◌, ap, inl, inr, Bool, true, false, List, [], ◌∷◌,
  get_elem?, some, Bool-cases, ◌==◌, ==_iff,
}
use helios_lb.LoadBalancer.Types.{Pointer, Store, Backend, is_healthy, set_healthy, update}
use helios_lb.LoadBalancer.Algorithms.Least.{Holds}
use helios_lb.LoadBalancer.Balancer.{
  LoadBalancer, HealthCheckOptions, Probe, check_http, check_backend_health, check_all,
  all_pointers, do_health_check,
}

is_healthy-set_healthy : (t : Bool) (b : Backend) → is_healthy (set_healthy t b) ≡ t
unfolding is_healthy set_healthy
is_healthy-set_healthy true b = refl
is_healthy-set_healthy false b = refl

-- All that a check does not write.
abbrev pub SameButHealth : Backend → Backend → Type 0
SameButHealth b c =
    (b.address ≡ c.address)
    × (b.port ≡ c.port)
    × (b.connections ≡ c.connections)
    × (b.service_name ≡ c.service_name)
    × (b.weight ≡ c.weight)

SameButHealth-trans : (a b c : Backend) → SameButHealth a b → SameButHealth b c → SameButHealth a c
SameButHealth-trans a b c (e, f, g, h, i) (e', f', g', h', i') =
    (e ∙ e', f ∙ f', g ∙ g', h ∙ h', i ∙ i')

set_healthy-SameButHealth : (t : Bool) (b : Backend) → SameButHealth (set_healthy t b) b
unfolding set_healthy
set_healthy-SameButHealth true b = (refl, refl, refl, refl, refl)
set_healthy-SameButHealth false b = (refl, refl, refl, refl, refl)

update_self : (σ : Store) (p : Pointer) (f : Backend → Backend) → update σ p f p ≡ f (σ p)
unfolding update
update_self σ p f = rw (update, (==_iff p p).1 refl) refl

update_other :
    (σ : Store) (p q : Pointer) (f : Backend → Backend) → (q == p) ≡ false → update σ p f q ≡ σ q
unfolding update
update_other σ p q f e = rw (update, e) refl

module _ (probe : Probe) (opts : HealthCheckOptions) where
  -- The outcome of a check depends on the address and the port alone.
  check_same :
      (b c : Backend)
      → SameButHealth b c
      → check_backend_health probe b opts ≡ check_backend_health probe c opts
  unfolding check_backend_health
  check_same b c (e, f, g, h, i) = rw (check_backend_health, check_http, e, f) refl

  abbrev write : Store → Pointer → Store
  write σ p = update σ p (set_healthy (check_backend_health probe (σ p) opts))

  write-SameButHealth : (σ : Store) (p q : Pointer) → SameButHealth (write σ p q) (σ q)
  unfolding update
  write-SameButHealth σ p q = elim (Bool-cases (q == p)) [
    | inl e ↦ rw (update, e) (set_healthy-SameButHealth _ (σ q))
    | inr e ↦ rw (update, e) (refl, refl, refl, refl, refl)
  ]

  check_all-SameButHealth :
      (ps : List Pointer) (σ : Store) (q : Pointer)
      → SameButHealth (check_all probe opts ps σ q) (σ q)
  unfolding check_all
  check_all-SameButHealth [] σ q = (refl, refl, refl, refl, refl)
  check_all-SameButHealth (p ∷ ps) σ q =
      SameButHealth-trans (check_all probe opts ps (write σ p) q) (write σ p q) (σ q)
        (check_all-SameButHealth ps (write σ p) q) (write-SameButHealth σ p q)

  -- The flag of `p` tells the outcome of its check.
  abbrev Told : Store → Pointer → Type 0
  Told σ p = is_healthy (σ p) ≡ check_backend_health probe (σ p) opts

  write-Told_self : (σ : Store) (p : Pointer) → Told (write σ p) p
  write-Told_self σ p =
      ap is_healthy (update_self σ p (set_healthy (check_backend_health probe (σ p) opts)))
      ∙ is_healthy-set_healthy (check_backend_health probe (σ p) opts) (σ p)
      ∙ sym (check_same (write σ p p) (σ p) (write-SameButHealth σ p p))

  write-Told : (σ : Store) (p q : Pointer) → Told σ q → Told (write σ p) q
  write-Told σ p q h = elim (Bool-cases (q == p)) [
    | inl e ↦
        let same : p ≡ q = sym ((==_iff q p).0 e) in
        subst (λ z. Told (write σ p) z) same (write-Told_self σ p)
    | inr e ↦
        let same : write σ p q ≡ σ q = update_other σ p q _ e in
        subst (λ b. is_healthy b ≡ check_backend_health probe b opts) (sym same) h
  ]

  check_all-Told :
      (ps : List Pointer) (σ : Store) (q : Pointer) → Told σ q → Told (check_all probe opts ps σ) q
  unfolding check_all
  check_all-Told [] σ q h = h
  check_all-Told (p ∷ ps) σ q h = check_all-Told ps (write σ p) q (write-Told σ p q h)

  check_all-Told_listed :
      (ps : List Pointer) (σ : Store) (i : ℕ) (q : Pointer)
      → get_elem? ps i ≡ some q
      → Told (check_all probe opts ps σ) q
  unfolding check_all
  check_all-Told_listed [] σ i q e = cc
  check_all-Told_listed (p ∷ ps) σ zero q e =
      let same : p ≡ q = some-injective p q e in
      subst (λ z. Told (check_all probe opts ps (write σ p)) z) same
        (check_all-Told ps (write σ p) p (write-Told_self σ p))
  check_all-Told_listed (p ∷ ps) σ (suc i) q e = check_all-Told_listed ps (write σ p) i q e

-- A health check changes nothing of any backend but its flag.
pub do_health_check-SameButHealth :
    (lb : LoadBalancer) (probe : Probe) (σ : Store) (p : Pointer)
    → SameButHealth (do_health_check lb probe σ p) (σ p)
unfolding do_health_check
do_health_check-SameButHealth lb probe σ p =
    check_all-SameButHealth probe lb.config.health_check_opts (all_pointers lb.backends) σ p

-- A health check leaves every registered backend with the outcome of its own check in its flag.
pub do_health_check_tells :
    (lb : LoadBalancer) (probe : Probe) (σ : Store) (p : Pointer)
    → Holds (all_pointers lb.backends) p
    → is_healthy (do_health_check lb probe σ p)
      ≡ check_backend_health probe (σ p) lb.config.health_check_opts
unfolding do_health_check
do_health_check_tells lb probe σ p (i, e) =
    let opts = lb.config.health_check_opts in
    let ps = all_pointers lb.backends in
    check_all-Told_listed probe opts ps σ i p e
    ∙ check_same probe opts (check_all probe opts ps σ p) (σ p)
        (check_all-SameButHealth probe opts ps σ p)
