-- ===== src/Controller/Manager/Release.antt =====
-- `AllocateAndAssign` (internal/controller/ip_manager.go): the addresses in use behind a failure.
use helios_lb.Prelude.{
  ◌≡◌, refl, sym, ◌∙◌, ap, inl, inr, true, false, List, [], ◌∷◌, Text, text_eq, Bool-cases, arith,
  Result, ok, err,
}
use helios_lb.Network.Allocator.{
  AllocError, Allocation, allocate_ip, allocate_specific_ip, is_used, mark_used, release_ip,
}
use helios_lb.Network.Allocator.Scan.{is_used-mark_used, is_used-release_ip}
use helios_lb.Network.Allocator.History.{
  MarksOrKeeps, allocate_ip-MarksOrKeeps, specific-MarksOrKeeps,
}
use helios_lb.Network.Manager.{
  NetworkManager, manager_allocate, manager_allocate_specific, manager_release,
}
use helios_lb.Api.Types.{HeliosConfig}
use helios_lb.Controller.Types.{Service, Client}
use helios_lb.Controller.Manager.{
  split_requested_ip, allocate, mark_others, assign_ip_to_service, Outcome, assigned, with_ipv6,
  with_ipv4, allocate_and_assign,
}

-- Every address in use in `nm'` is in use in `nm`; an address is not the empty text.
abbrev pub NoMore : NetworkManager → NetworkManager → Type 0
NoMore nm' nm =
    (t : Text)
    → text_eq t [] ≡ false
    → is_used nm'.ip_allocator t ≡ true
    → is_used nm.ip_allocator t ≡ true

-- A manager behind an allocation: as it was, or with the returned address marked.
abbrev pub Allocated : NetworkManager → Result AllocError Text × NetworkManager → Type 0
Allocated nm (ok s, nm') = nm'.ip_allocator ≡ mark_used nm.ip_allocator s
Allocated nm (err e, nm') = nm'.ip_allocator ≡ nm.ip_allocator

managed-Allocated :
    (nm : NetworkManager) (m : Allocation)
    → MarksOrKeeps nm.ip_allocator m
    → Allocated nm (m.0, record { ip_allocator = m.1 })
managed-Allocated nm (ok s, b) h = h
managed-Allocated nm (err e, b) h = h

pub allocate-Allocated : (nm : NetworkManager) (r q : Text) → Allocated nm (allocate nm r q)
unfolding allocate manager_allocate manager_allocate_specific
allocate-Allocated nm r q = elim (Bool-cases (text_eq q [])) [
  | inl z ↦
      rw (allocate, z)
        (managed-Allocated nm (allocate_ip nm.ip_allocator r)
          (allocate_ip-MarksOrKeeps nm.ip_allocator r))
  | inr z ↦
      rw (allocate, z)
        (managed-Allocated nm (allocate_specific_ip nm.ip_allocator r q)
          (specific-MarksOrKeeps nm.ip_allocator r q))
]

-- A release behind a mark leaves no more than before.
release_marked :
    (nm nm' : NetworkManager) (s : Text)
    → nm'.ip_allocator ≡ mark_used nm.ip_allocator s
    → NoMore (manager_release nm' s) nm
unfolding manager_release
release_marked nm nm' s e t n u = ground (
  arith,
  is_used-release_ip nm'.ip_allocator s t,
  is_used-mark_used nm.ip_allocator s t,
  ap (λ a. is_used a t) e,
)

release_both :
    (nm nm' nm'' : NetworkManager) (s t : Text)
    → nm'.ip_allocator ≡ mark_used nm.ip_allocator s
    → nm''.ip_allocator ≡ mark_used nm'.ip_allocator t
    → NoMore (manager_release (manager_release nm'' s) t) nm
unfolding manager_release
release_both nm nm' nm'' s t e f x n u = ground (
  arith,
  is_used-release_ip (release_ip nm''.ip_allocator s) t x,
  is_used-release_ip nm''.ip_allocator s x,
  is_used-mark_used nm'.ip_allocator t x,
  is_used-mark_used nm.ip_allocator s x,
  ap (λ a. is_used a x) e,
  ap (λ a. is_used a x) f,
)

empty_differs : (s t : Text) → text_eq s [] ≡ true → text_eq t [] ≡ false → text_eq s t ≡ false
unfolding text_eq
empty_differs [] [] h n = n
empty_differs [] (c ∷ t) h n = refl
empty_differs (c ∷ s) t h n = cc

release_first :
    (nm nm' nm'' : NetworkManager) (s t : Text)
    → nm'.ip_allocator ≡ mark_used nm.ip_allocator s
    → nm''.ip_allocator ≡ mark_used nm'.ip_allocator t
    → text_eq t [] ≡ true
    → NoMore (manager_release nm'' s) nm
unfolding manager_release
release_first nm nm' nm'' s t e f z x n u = ground (
  arith,
  empty_differs t x z n,
  is_used-release_ip nm''.ip_allocator s x,
  is_used-mark_used nm'.ip_allocator t x,
  is_used-mark_used nm.ip_allocator s x,
  ap (λ a. is_used a x) e,
  ap (λ a. is_used a x) f,
)

module _ {W E : Type 0} (client : Client W E) where
  -- A failure leaves no more in use than `nm`.
  abbrev pub FailsClean : NetworkManager → Outcome client → Type 0
  FailsClean nm (ok ips, nm', w) = Unit {0}
  FailsClean nm (err e, nm', w) = NoMore nm' nm

  assigned_one-FailsClean :
      (nm nm' : NetworkManager) (ip : Text) (m : Result E (Unit {0}) × W)
      → nm'.ip_allocator ≡ mark_used nm.ip_allocator ip
      → FailsClean nm (assigned client ip [] nm' m)
  unfolding assigned text_eq
  assigned_one-FailsClean nm nm' ip (ok done, w) e = tt
  assigned_one-FailsClean nm nm' ip (err x, w) e = release_marked nm nm' ip e

  assigned_two-FailsClean :
      (nm nm' nm'' : NetworkManager) (ip ipv6 : Text) (m : Result E (Unit {0}) × W)
      → nm'.ip_allocator ≡ mark_used nm.ip_allocator ip
      → nm''.ip_allocator ≡ mark_used nm'.ip_allocator ipv6
      → FailsClean nm (assigned client ip ipv6 nm'' m)
  unfolding assigned
  assigned_two-FailsClean nm nm' nm'' ip ipv6 (ok done, w) e f = tt
  assigned_two-FailsClean nm nm' nm'' ip ipv6 (err x, w) e f = elim (Bool-cases (text_eq ipv6 [])) [
    | inl z ↦ rw z (release_first nm nm' nm'' ip ipv6 e f z)
    | inr z ↦ rw z (release_both nm nm' nm'' ip ipv6 e f)
  ]

  with_ipv6-FailsClean :
      (nm nm' : NetworkManager) (svc : Service) (ip : Text) (w : W)
      (m : Result AllocError Text × NetworkManager)
      → nm'.ip_allocator ≡ mark_used nm.ip_allocator ip
      → Allocated nm' m
      → FailsClean nm (with_ipv6 client svc ip w m)
  unfolding with_ipv6
  with_ipv6-FailsClean nm nm' svc ip w (ok ipv6, nm'') e f =
      assigned_two-FailsClean nm nm' nm'' ip ipv6 (assign_ip_to_service client svc ip ipv6 w) e f
  with_ipv6-FailsClean nm nm' svc ip w (err x, nm'') e f = release_marked nm nm'' ip (f ∙ e)

  with_ipv4-FailsClean :
      (nm : NetworkManager) (hc : HeliosConfig) (svc : Service) (requested_v6 : Text) (w : W)
      (m : Result AllocError Text × NetworkManager)
      → Allocated nm m
      → FailsClean nm (with_ipv4 client hc svc requested_v6 w m)
  unfolding with_ipv4
  with_ipv4-FailsClean nm hc svc q w (err x, nm') e = λ t n u. ap (λ a. is_used a t) (sym e) ∙ u
  with_ipv4-FailsClean nm hc svc q w (ok ip, nm') e =
      elim (Bool-cases (text_eq hc.spec.ipv6_range [])) [
        | inl z ↦
            rw z (assigned_one-FailsClean nm nm' ip (assign_ip_to_service client svc ip [] w) e)
        | inr z ↦ rw z (
            with_ipv6-FailsClean nm nm' svc ip w (allocate nm' hc.spec.ipv6_range q) e
              (allocate-Allocated nm' hc.spec.ipv6_range q))
      ]

  -- When the configs are listed, a failed `AllocateAndAssign` leaves no address in use but those
  -- that were in use once the addresses of the other configs were marked.
  pub allocate_and_assign-FailsClean :
      (nm : NetworkManager) (w : W) (hc : HeliosConfig) (svc : Service)
      (configs : List HeliosConfig)
      → client.list_configs w ≡ ok configs
      → FailsClean (mark_others nm hc configs) (allocate_and_assign client nm w hc svc)
  unfolding allocate_and_assign
  allocate_and_assign-FailsClean nm w hc svc configs e =
      let marked = mark_others nm hc configs in
      let (v4, v6) = split_requested_ip svc.load_balancer_ip in
      rw (allocate_and_assign, e)
        (with_ipv4-FailsClean marked hc svc v6 w (allocate marked hc.spec.ip_range v4)
          (allocate-Allocated marked hc.spec.ip_range v4))
