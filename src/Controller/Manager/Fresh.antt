-- ===== src/Controller/Manager/Fresh.antt =====
-- `AllocateAndAssign` (internal/controller/ip_manager.go): the addresses of a success.
use helios_lb.Prelude.{
  ◌≡◌, refl, sym, ◌∙◌, ap, ◌⊎◌, inl, inr, true, false, List, [], if-elim, if◌then◌else◌, Text,
  text_eq, text_eq_iff, text_eq_refl, Bool-cases, arith, Result, ok, err,
}
use helios_lb.Network.Allocator.{AllocError, is_used, mark_used}
use helios_lb.Network.Allocator.Scan.{is_used-mark_used, is_used-release_ip}
use helios_lb.Network.Allocator.History.{allocates, allocates_specific, NamesPool, was_free}
use helios_lb.Network.Manager.{
  NetworkManager, manager_allocate, manager_allocate_specific, manager_release,
}
use helios_lb.Api.Types.{HeliosConfig}
use helios_lb.Controller.Types.{Service, Client}
use helios_lb.Controller.Manager.{
  split_requested_ip, allocate, mark_others, assign_ip_to_service, Outcome, assigned, with_ipv6,
  with_ipv4, allocate_and_assign,
}
use helios_lb.Controller.Manager.Release.{Allocated, allocate-Allocated}

-- An address that is returned was free.
abbrev Free : NetworkManager → Result AllocError Text × NetworkManager → Type 0
Free nm (ok s, nm') = is_used nm.ip_allocator s ≡ false
Free nm (err e, nm') = Unit {0}

result-Free :
    (nm nm' : NetworkManager) (r : Result AllocError Text)
    → ((s : Text) → r ≡ ok s → is_used nm.ip_allocator s ≡ false)
    → Free nm (r, nm')
result-Free nm nm' (ok s) h = h s refl
result-Free nm nm' (err e) h = tt

allocate-Free : (nm : NetworkManager) (r q : Text) → NamesPool r → Free nm (allocate nm r q)
unfolding allocate manager_allocate manager_allocate_specific
allocate-Free nm r q p = elim (Bool-cases (text_eq q [])) [
  | inl z ↦
      rw (allocate, z) (result-Free nm _ _ (λ s h. was_free nm.ip_allocator (allocates r) s p h))
  | inr z ↦
      rw (allocate, z)
        (result-Free nm _ _ (λ s h. was_free nm.ip_allocator (allocates_specific r q) s tt h))
]

-- Every address in use stays so.
abbrev pub Keeps : NetworkManager → NetworkManager → Type 0
Keeps nm nm' = (t : Text) → is_used nm.ip_allocator t ≡ true → is_used nm'.ip_allocator t ≡ true

Keeps-release :
    (nm nm' : NetworkManager) (ip : Text)
    → is_used nm.ip_allocator ip ≡ false
    → Keeps nm nm'
    → Keeps nm (manager_release nm' ip)
unfolding manager_release
Keeps-release nm nm' ip f k t u =
    ground (arith, is_used-release_ip nm'.ip_allocator ip t, k t u, text_eq_iff ip t, same ip t)
  where
    same : (s t : Text) → s ≡ t → is_used nm.ip_allocator s ≡ is_used nm.ip_allocator t
    same s t e = ap (is_used nm.ip_allocator) e

-- The second address of a pair, where there is one, was free and differs from the first, and both
-- are in use now; what was in use is so still.
abbrev pub Grants : NetworkManager → Text → Text → NetworkManager → Type 0
Grants nm ip ipv6 nm' =
    (is_used nm.ip_allocator ip ≡ false)
    × (is_used nm'.ip_allocator ip ≡ true)
    × ((ipv6 ≡ [])
        ⊎ ((is_used nm.ip_allocator ipv6 ≡ false)
            × (is_used nm'.ip_allocator ipv6 ≡ true)
            × (text_eq ip ipv6 ≡ false)))
    × Keeps nm nm'

Grants-one :
    (nm nm' : NetworkManager) (ip : Text)
    → is_used nm.ip_allocator ip ≡ false
    → nm'.ip_allocator ≡ mark_used nm.ip_allocator ip
    → Grants nm ip [] nm'
Grants-one nm nm' ip f e =
    let marks = λ (t : Text). ap (λ a. is_used a t) e ∙ is_used-mark_used nm.ip_allocator ip t in
    (f, marks ip ∙ rw (text_eq_refl ip) refl, inl refl, λ t u. ground (arith, marks t, u))

Grants-two :
    (nm nm' nm'' : NetworkManager) (ip ipv6 : Text)
    → is_used nm.ip_allocator ip ≡ false
    → nm'.ip_allocator ≡ mark_used nm.ip_allocator ip
    → is_used nm'.ip_allocator ipv6 ≡ false
    → nm''.ip_allocator ≡ mark_used nm'.ip_allocator ipv6
    → Grants nm ip ipv6 nm''
Grants-two nm nm' nm'' ip ipv6 f e g h =
    let marks = λ (t : Text). ap (λ a. is_used a t) e ∙ is_used-mark_used nm.ip_allocator ip t in
    let again = λ (t : Text). ap (λ a. is_used a t) h ∙ is_used-mark_used nm'.ip_allocator ipv6 t in
    (
      f,
      ground (arith, marks ip, again ip, text_eq_refl ip),
      inr (
        ground (arith, marks ipv6, g),
        again ipv6 ∙ rw (text_eq_refl ipv6) refl,
        ground (arith, marks ipv6, g),
      ),
      λ t u. ground (arith, marks t, again t, u),
    )

pool_of : (r : Text) → (r ≡ []) ⊎ NamesPool r → text_eq r [] ≡ false → NamesPool r
pool_of r (inl e) z = let c : true ≡ false = sym ((text_eq_iff r []).1 e) ∙ z in cc
pool_of r (inr p) z = p

module _ {W E : Type 0} (client : Client W E) where
  -- A success grants its addresses, and a failure keeps all that was in use.
  abbrev pub Succeeds : NetworkManager → Outcome client → Type 0
  Succeeds nm (ok (ip, ipv6), nm', w) = Grants nm ip ipv6 nm'
  Succeeds nm (err e, nm', w) = Keeps nm nm'

  released-Keeps :
      (nm nm' : NetworkManager) (ip ipv6 : Text)
      → Grants nm ip ipv6 nm'
      → Keeps nm (
          if text_eq ipv6 []
          then manager_release nm' ip
          else manager_release (manager_release nm' ip) ipv6)
  unfolding text_eq
  released-Keeps nm nm' ip ipv6 (f, u, inl z, k) = rw z (Keeps-release nm nm' ip f k)
  released-Keeps nm nm' ip ipv6 (f, u, inr (g, v, d), k) =
      let first = Keeps-release nm nm' ip f k in
      if-elim (Keeps nm) (text_eq ipv6 []) _ _ (λ z. first)
        (λ z. Keeps-release nm (manager_release nm' ip) ipv6 g first)

  assigned-Succeeds :
      (nm nm' : NetworkManager) (ip ipv6 : Text) (m : Result E (Unit {0}) × W)
      → Grants nm ip ipv6 nm'
      → Succeeds nm (assigned client ip ipv6 nm' m)
  unfolding assigned
  assigned-Succeeds nm nm' ip ipv6 (ok done, w) g = g
  assigned-Succeeds nm nm' ip ipv6 (err e, w) g = released-Keeps nm nm' ip ipv6 g

  with_ipv6-Succeeds :
      (nm nm' : NetworkManager) (svc : Service) (ip : Text) (w : W)
      (m : Result AllocError Text × NetworkManager)
      → is_used nm.ip_allocator ip ≡ false
      → nm'.ip_allocator ≡ mark_used nm.ip_allocator ip
      → Free nm' m
      → Allocated nm' m
      → Succeeds nm (with_ipv6 client svc ip w m)
  unfolding with_ipv6
  with_ipv6-Succeeds nm nm' svc ip w (ok ipv6, nm'') f e g h =
      assigned-Succeeds nm nm'' ip ipv6 (assign_ip_to_service client svc ip ipv6 w)
        (Grants-two nm nm' nm'' ip ipv6 f e g h)
  with_ipv6-Succeeds nm nm' svc ip w (err x, nm'') f e g h =
      let (a, b, c, k) = Grants-one nm nm' ip f e in
      Keeps-release nm nm'' ip f (λ t u. ap (λ a. is_used a t) h ∙ k t u)

  with_ipv4-Succeeds :
      (nm : NetworkManager) (hc : HeliosConfig) (svc : Service) (q : Text) (w : W)
      (m : Result AllocError Text × NetworkManager)
      → (hc.spec.ipv6_range ≡ []) ⊎ NamesPool hc.spec.ipv6_range
      → Free nm m
      → Allocated nm m
      → Succeeds nm (with_ipv4 client hc svc q w m)
  unfolding with_ipv4
  with_ipv4-Succeeds nm hc svc q w (err x, nm') p f e = λ t u. ap (λ a. is_used a t) e ∙ u
  with_ipv4-Succeeds nm hc svc q w (ok ip, nm') p f e =
      if-elim (Succeeds nm) (text_eq hc.spec.ipv6_range []) _ _
        (λ z.
          assigned-Succeeds nm nm' ip [] (assign_ip_to_service client svc ip [] w)
            (Grants-one nm nm' ip f e))
        (λ z.
          with_ipv6-Succeeds nm nm' svc ip w (allocate nm' hc.spec.ipv6_range q) f e
            (allocate-Free nm' hc.spec.ipv6_range q (pool_of hc.spec.ipv6_range p z))
            (allocate-Allocated nm' hc.spec.ipv6_range q))

  -- When the configs are listed, and each range of the config is one of several addresses of one
  -- family that ends before the last address of the family, a successful `AllocateAndAssign` returns
  -- addresses that were free once the addresses of the other configs were marked, two different ones
  -- if there are two, which are in use afterwards; whether it succeeds or fails, what was in use
  -- is so still.
  pub allocate_and_assign-Succeeds :
      (nm : NetworkManager) (w : W) (hc : HeliosConfig) (svc : Service)
      (configs : List HeliosConfig)
      → client.list_configs w ≡ ok configs
      → NamesPool hc.spec.ip_range
      → (hc.spec.ipv6_range ≡ []) ⊎ NamesPool hc.spec.ipv6_range
      → Succeeds (mark_others nm hc configs) (allocate_and_assign client nm w hc svc)
  unfolding allocate_and_assign
  allocate_and_assign-Succeeds nm w hc svc configs e p q =
      let marked = mark_others nm hc configs in
      let (v4, v6) = split_requested_ip svc.load_balancer_ip in
      rw (allocate_and_assign, e)
        (with_ipv4-Succeeds marked hc svc v6 w (allocate marked hc.spec.ip_range v4) q
          (allocate-Free marked hc.spec.ip_range v4 p)
          (allocate-Allocated marked hc.spec.ip_range v4))
