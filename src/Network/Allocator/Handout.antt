-- ===== src/Network/Allocator/Handout.antt =====
-- `AllocateIP`, `ReleaseIP` and `AllocateSpecificIP` (internal/network/ip_allocator.go) on one IPv4
-- address.
use helios_lb.Prelude.{
  ◌+◌, ◌^◌, ◌<◌, ◌≡◌, ◌≢◌, refl, sym, ◌∙◌, ap, subst, inl, inr, true, false, [], ◌∷◌, some, length,
  Text, text_eq_refl, ok, ok-injective, trim_space, le→leb,
}
use helios_lb.Net.Addr.{Ip, IsBytes}
use helios_lb.Net.Parse.{parse_ip}
use helios_lb.Net.Print.{ip_string}
use helios_lb.Net.RoundTrip.{mapped, parse_ip-ip_string}
use helios_lb.Network.Parse.{parse_ip_range, normalize_ip}
use helios_lb.Network.Value.{value}
use helios_lb.Network.Allocator.{
  IpAllocator, is_used, mark_used, release_ip, allocate_ip, allocate_specific_ip, ip_allocatable,
}
use helios_lb.Network.Allocator.Scan.{is_used-release_ip}
use helios_lb.Network.Allocator.Specific.{
  canonical, between-value, ip_allocatable-parsed, request_cases,
}
use helios_lb.Network.Allocator.Free.{InRange, IsPool, parsed-IsPool, allocate_ip-PoolOutcome}

normalize_ip-mapped : (x : Ip) → length x ≡ 4 → normalize_ip (mapped x) ≡ x
unfolding normalize_ip helios_lb.Net.Addr.to4
normalize_ip-mapped (a ∷ b ∷ c ∷ d ∷ []) l = refl
normalize_ip-mapped [] l = cc
normalize_ip-mapped (a ∷ []) l = cc
normalize_ip-mapped (a ∷ b ∷ []) l = cc
normalize_ip-mapped (a ∷ b ∷ c ∷ []) l = cc
normalize_ip-mapped (a ∷ b ∷ c ∷ d ∷ e ∷ x) l = cc

module _ (r : Text) (start end : Ip) (e : parse_ip_range r ≡ ok (start, end)) (p : IsPool start end)
    (l : length start ≡ 4) where
  read_back : (x : Ip) → InRange start end x → parse_ip (trim_space (ip_string x)) ≡ some (mapped x)
  read_back x v = parse_ip-ip_string x (v.family ∙ l) v.bytes

  ip_allocatable-InRange : (x : Ip) → InRange start end x → ip_allocatable (ip_string x) r ≡ true
  ip_allocatable-InRange x v =
      rw
        (
          ip_allocatable-parsed (ip_string x) r (mapped x) start end (read_back x v) e,
          normalize_ip-mapped x (v.family ∙ l),
          between-value start end x p.start_bytes p.end_bytes v.bytes v.family
              (v.family ∙ p.family),
          le→leb (value start) (value x) v.above,
          le→leb (value x) (value end) v.below,
        )
        refl

  requested :
      (x : Ip) (a : IpAllocator)
      → InRange start end x
      → is_used a (ip_string x) ≡ false
      → allocate_specific_ip a r (ip_string x) ≡ (ok (ip_string x), mark_used a (ip_string x))
  requested x a v u =
      let n : canonical (mapped x) ≡ ip_string x =
        ap ip_string (normalize_ip-mapped x (v.family ∙ l)) in
      elim (request_cases a r (ip_string x) (mapped x) (read_back x v)) [
        | inl (b, h) ↦ let c = ip_allocatable-InRange x v in cc
        | inr (inl (b, h, g)) ↦ let c = ap (is_used a) n in cc
        | inr (inr (b, h, g)) ↦
            subst (λ s. allocate_specific_ip a r (ip_string x) ≡ (ok s, mark_used a s)) n g
      ]

-- An address that `AllocateIP` returns, for a range of IPv4 of several addresses that ends before
-- the last address of the family, is one that `IPAllocatable` accepts for the range, and once it is
-- released `AllocateSpecificIP` grants a request for it.
pub allocate_ip-release-specific :
    (a b : IpAllocator) (r s : Text) (start end : Ip)
    → parse_ip_range r ≡ ok (start, end)
    → length start ≡ 4
    → length start ≡ length end
    → value start ≢ value end
    → value end + 1 < 256 ^ length start
    → allocate_ip a r ≡ (ok s, b)
    → (ip_allocatable s r ≡ true)
      × (allocate_specific_ip (release_ip b s) r s ≡ (ok s, mark_used (release_ip b s) s))
allocate_ip-release-specific a b r s start end e four l n t h =
    let p = parsed-IsPool r start end e l n t in
    elim (allocate_ip-PoolOutcome a r start end e l n t) [
      | inl (s', a', q, (x, v, g, free, below, m)) ↦
          let same : ip_string x ≡ s = sym g ∙ ok-injective s' s (ap (λ o. o.0) (sym q ∙ h)) in
          rw (sym same) (
            ip_allocatable-InRange r start end e p four x v,
            requested r start end e p four x (release_ip b (ip_string x)) v (
                is_used-release_ip b (ip_string x) (ip_string x)
                ∙ rw (text_eq_refl (ip_string x)) refl),
          )
      | inr (inl (q, u)) ↦ cc
      | inr (inr (q, k, u)) ↦ cc
    ]
