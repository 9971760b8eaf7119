-- ===== src/Controller/Reconciler/Handed.antt =====
-- How often the events of internal/controller/heliosconfig_controller.go say that an address was
-- given to a service.
use helios_lb.Prelude.{
  ℕ, ◌+◌, ◌≤◌, ◌≡◌, sym, ap, ◌∙◌, ◌⊎◌, inl, inr, Bool, true, false, List, [], ◌∷◌, ◌++◌,
  if◌then◌else◌, arith, Bool-cases, Text, text_eq, text_eq_iff,
}
use helios_lb.Network.Allocator.{is_used}
use helios_lb.Network.Manager.{NetworkManager}
use helios_lb.Controller.Types.{Service}
use helios_lb.Controller.Manager.Fresh.{Keeps, Grants}
use helios_lb.Controller.Reconciler.{Event, ip_allocated, dual_stack_allocated, allocation_event}

abbrev one_if : Bool → ℕ
one_if b = if b then 1 else 0

unfoldable pub names : Text → Event → ℕ
names t (ip_allocated ip namespace name) = one_if (text_eq ip t)
names t (dual_stack_allocated ip ipv6 namespace name) =
    one_if (text_eq ip t) + one_if (text_eq ipv6 t)
names t other = 0

unfoldable pub handed : Text → List Event → ℕ
unfolding names
handed t [] = 0
handed t (e ∷ es) = names t e + handed t es

pub handed-append :
    (t : Text) (xs ys : List Event) → handed t (xs ++ ys) ≡ handed t xs + handed t ys
unfolding handed
handed-append t [] ys = omega arith
handed-append t (e ∷ xs) ys = omega (arith, handed-append t xs ys)

-- One for an address that is free.
unfoldable pub spare : Text → NetworkManager → ℕ
spare t nm = if is_used nm.ip_allocator t then 0 else 1

-- The address was given at most so many times, where a free one counts as given.
abbrev pub Within : ℕ → Text → NetworkManager → List Event → Type 0
Within n t nm es = handed t es + spare t nm ≤ n

spare-Keeps : (t : Text) (nm nm' : NetworkManager) → Keeps nm nm' → spare t nm' ≤ spare t nm
unfolding spare
spare-Keeps t nm nm' k = ground (arith, k t)

pub Within-Keeps :
    (n : ℕ) (t : Text) (nm nm' : NetworkManager) (es : List Event)
    → Keeps nm nm'
    → Within n t nm es
    → Within n t nm' es
Within-Keeps n t nm nm' es k h = let s = spare-Keeps t nm nm' k in omega (arith, s, h)

-- An event that gives no address to a service.
pub Within-quiet :
    (n : ℕ) (t : Text) (nm : NetworkManager) (es : List Event) (e : Event)
    → names t e ≡ 0
    → Within n t nm es
    → Within n t nm (es ++ e ∷ [])
unfolding handed
Within-quiet n t nm es e q h = let a = handed-append t es (e ∷ []) in omega (arith, a, q, h)

same_use :
    (nm : NetworkManager) (s t : Text)
    → text_eq s t ≡ true
    → is_used nm.ip_allocator s ≡ is_used nm.ip_allocator t
same_use nm s t q = ap (is_used nm.ip_allocator) ((text_eq_iff s t).0 q)

apart : (s s' t : Text) → text_eq s s' ≡ false → text_eq s t ≡ true → text_eq s' t ≡ false
apart s s' t d e = ground (arith, text_eq_iff s t, text_eq_iff s' t, text_eq_iff s s', joined)
  where
    joined : s ≡ t → s' ≡ t → s ≡ s'
    joined p q = p ∙ sym q

-- The event of a success gives an address that was free and is in use, once, or not at all.
Fresh : Text → NetworkManager → NetworkManager → ℕ → Type 0
Fresh t nm nm' n = (n ≡ 0) ⊎ ((n ≡ 1) × (spare t nm ≡ 1) × (spare t nm' ≡ 0))

one_named :
    (t s : Text) (nm nm' : NetworkManager)
    → is_used nm.ip_allocator s ≡ false
    → is_used nm'.ip_allocator s ≡ true
    → Fresh t nm nm' (one_if (text_eq s t))
unfolding Fresh spare
one_named t s nm nm' f u = ground (arith, same_use nm s t, same_use nm' s t)

two_named :
    (t s s' : Text) (nm nm' : NetworkManager)
    → is_used nm.ip_allocator s ≡ false
    → is_used nm'.ip_allocator s ≡ true
    → is_used nm.ip_allocator s' ≡ false
    → is_used nm'.ip_allocator s' ≡ true
    → text_eq s s' ≡ false
    → Fresh t nm nm' (one_if (text_eq s t) + one_if (text_eq s' t))
unfolding Fresh spare
two_named t s s' nm nm' f u g v d =
    ground (
      arith,
      same_use nm s t,
      same_use nm' s t,
      same_use nm s' t,
      same_use nm' s' t,
      apart s s' t d,
    )

event_named :
    (t ip ipv6 : Text) (svc : Service) (nm nm' : NetworkManager)
    → Grants nm ip ipv6 nm'
    → Fresh t nm nm' (names t (allocation_event svc ip ipv6))
unfolding allocation_event names
event_named t ip ipv6 svc nm nm' (f, u, r, k) = elim (Bool-cases (text_eq ipv6 [])) [
  | inl z ↦ rw z (one_named t ip nm nm' f u)
  | inr z ↦ rw z (both r z)
]
  where
    both :
        (ipv6 ≡ [])
          ⊎ ((is_used nm.ip_allocator ipv6 ≡ false)
              × (is_used nm'.ip_allocator ipv6 ≡ true)
              × (text_eq ip ipv6 ≡ false))
        → text_eq ipv6 [] ≡ false
        → Fresh t nm nm' (one_if (text_eq ip t) + one_if (text_eq ipv6 t))
    both (inl e) z = let c = (text_eq_iff ipv6 []).1 e in cc
    both (inr (g, v, d)) z = two_named t ip ipv6 nm nm' f u g v d

pub Within-granted :
    (n : ℕ) (t ip ipv6 : Text) (svc : Service) (nm nm' : NetworkManager) (es : List Event)
    → Grants nm ip ipv6 nm'
    → Within n t nm es
    → Within n t nm' (es ++ allocation_event svc ip ipv6 ∷ [])
unfolding handed Fresh
Within-granted n t ip ipv6 svc nm nm' es g h =
    let a = handed-append t es (allocation_event svc ip ipv6 ∷ []) in
    let k = spare-Keeps t nm nm' g.3 in
    elim (event_named t ip ipv6 svc nm nm' g) [
      | inl z ↦ omega (arith, a, k, z, h)
      | inr (m, f, u) ↦ omega (arith, a, m, f, u, h)
    ]
