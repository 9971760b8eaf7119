-- ===== src/Controller/Filter/Eligible.antt =====
-- `FilterEligibleServices` (internal/controller/service_filter.go): which services it keeps.
use mathlib.Core.Option.{some-injective}
use helios_lb.Prelude.{
  ℕ, zero, suc, ◌≡◌, refl, sym, ◌∙◌, ap, ◌⊎◌, Bool, inl, inr, ◌↔◌, true, List, [], ◌∷◌, Option,
  none, some, Text, codes, text_eq_iff, get_elem?, arith, Bool-cases, keep_if, keep_if-get_elem?,
}
use helios_lb.Network.Allocator.{ip_allocatable}
use helios_lb.Controller.Types.{Service}
use helios_lb.Controller.Filter.{
  allows, has_class, is_empty, request_fits, eligible, filter_eligible_services,
}

-- The text stands in the list.
abbrev pub StandsIn : Text → List Text → Type 0
StandsIn t [] = ⊥
StandsIn t (x ∷ xs) = (x ≡ t) ⊎ StandsIn t xs

abbrev pub IsEligible : List Text → Text → Text → Service → Type 0
IsEligible selector ip_range ipv6_range svc =
    (svc.is_load_balancer ≡ true)
    × ((svc.load_balancer_class ≡ none) ⊎ (svc.load_balancer_class ≡ some (codes "helios-lb")))
    × ((selector ≡ []) ⊎ StandsIn svc.namespace selector)
    × (svc.ingress ≡ [])
    × ((svc.load_balancer_ip ≡ [])
        ⊎ ((ip_allocatable svc.load_balancer_ip ip_range ≡ true)
            ⊎ (¬ (ipv6_range ≡ []) × (ip_allocatable svc.load_balancer_ip ipv6_range ≡ true))))

is_empty_iff : (xs : List Text) → (is_empty xs ≡ true) ↔ (xs ≡ [])
unfolding is_empty
is_empty_iff [] = (λ h. refl, λ h. refl)
is_empty_iff (x ∷ xs) = (λ h. cc, λ h. cc)

allows_iff : (selector : List Text) (ns : Text) → (allows selector ns ≡ true) ↔ StandsIn ns selector
unfolding allows
allows_iff [] ns = (λ h. cc, λ h. absurd h)
allows_iff (n ∷ more) ns = ground (arith, text_eq_iff n ns, allows_iff more ns)

has_class_iff :
    (c : Option Text) (svc : Service)
    → svc.load_balancer_class ≡ c
    → (has_class svc ≡ true)
      ↔ ((svc.load_balancer_class ≡ none) ⊎ (svc.load_balancer_class ≡ some (codes "helios-lb")))
unfolding has_class
has_class_iff none svc e = (λ h. inl e, λ h. rw (has_class, e) refl)
has_class_iff (some c) svc e = (
  λ h. inr (e ∙ ap some ((text_eq_iff c (codes "helios-lb")).0 (rw (has_class, e) at h))),
  λ h. rw (has_class, e) ((text_eq_iff c (codes "helios-lb")).1 (same h)),
)
  where
    same :
        (svc.load_balancer_class ≡ none) ⊎ (svc.load_balancer_class ≡ some (codes "helios-lb"))
        → c ≡ codes "helios-lb"
    same (inl n) = let x : some c ≡ none = sym e ∙ n in cc
    same (inr s) = some-injective c (codes "helios-lb") (sym e ∙ s)

eligible_iff :
    (selector : List Text) (ip_range ipv6_range : Text) (svc : Service)
    → (eligible selector ip_range ipv6_range svc ≡ true)
      ↔ IsEligible selector ip_range ipv6_range svc
unfolding eligible request_fits
eligible_iff selector r r6 svc = ground (
  arith,
  has_class_iff svc.load_balancer_class svc refl,
  is_empty_iff selector,
  allows_iff selector svc.namespace,
  is_empty_iff svc.ingress,
  text_eq_iff svc.load_balancer_ip [],
  text_eq_iff r6 [],
)

-- The service stands in the list.
abbrev pub Lists : List Service → Service → Type 0
Lists services svc = (i : ℕ) × (get_elem? services i ≡ some svc)

Lists-suc :
    (s : Service) (services : List Service) (svc : Service)
    → Lists services svc
    → Lists (s ∷ services) svc
Lists-suc s services svc (i, e) = (suc i, e)

keep_if-Lists :
    (t : Service → Bool) (services : List Service) (i : ℕ) (svc : Service)
    → get_elem? services i ≡ some svc
    → t svc ≡ true
    → Lists (keep_if t services) svc
keep_if-Lists t [] i svc e h = cc
keep_if-Lists t (s ∷ services) zero svc e h =
    let q : t s ≡ true = ap t (some-injective s svc e) ∙ h in rw q (zero, e)
keep_if-Lists t (s ∷ services) (suc i) svc e h =
    let later = keep_if-Lists t services i svc e h in
    elim (Bool-cases (t s)) [
      | inl q ↦ rw q (Lists-suc s (keep_if t services) svc later)
      | inr q ↦ rw q later
    ]

-- `FilterEligibleServices` keeps a service exactly when it is one of the list, a load balancer without
-- a class or with the class `helios-lb`, in a namespace of the selector, unless that is empty, without
-- an address, and requests none or one that `IPAllocatable` accepts for the first range, or for the
-- IPv6 range where there is one.
pub filter_eligible_services_iff :
    (services : List Service) (selector : List Text) (ip_range ipv6_range : Text) (svc : Service)
    → Lists (filter_eligible_services services selector ip_range ipv6_range) svc
      ↔ (Lists services svc × IsEligible selector ip_range ipv6_range svc)
unfolding filter_eligible_services
filter_eligible_services_iff services selector r r6 svc = (
  λ (i, e).
      let (held, t) = keep_if-get_elem? (eligible selector r r6) services i svc e in
      (held, (eligible_iff selector r r6 svc).0 t),
  λ ((i, e), h).
      keep_if-Lists (eligible selector r r6) services i svc e
        ((eligible_iff selector r r6 svc).1 h),
)
