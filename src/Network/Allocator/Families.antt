-- ===== src/Network/Allocator/Families.antt =====
-- `IPAllocatable` and `AllocateSpecificIP` (internal/network/ip_allocator.go) on an address of the
-- other family.
use Prim.Native.Nat.{Ordering}
use helios_lb.Prelude.{
  ◌≡◌, refl, true, false, [], ◌∷◌, ◌++◌, some, Text, ok, trim_space, length, arith,
}
use helios_lb.Net.Addr.{Ip, compare_bytes, not_below, not_above}
use helios_lb.Net.Parse.{parse_ip}
use helios_lb.Network.Parse.{parse_ip_range, normalize_ip}
use helios_lb.Network.Allocator.{
  IpAllocator, is_used, mark_used, between, ip_allocatable, allocate_specific_ip,
}
use helios_lb.Network.Allocator.Specific.{canonical}

-- `p` is an address above `a`, or `a` itself, whatever follows it.
not_below-prefix :
    (p rest a : Ip)
    → length p ≡ length a
    → not_below (compare_bytes p a) ≡ true
    → not_below (compare_bytes (p ++ rest) a) ≡ true
unfolding compare_bytes
not_below-prefix [] [] [] l h = refl
not_below-prefix [] (r ∷ rest) [] l h = refl
not_below-prefix (x ∷ p) rest (y ∷ a) l h = ground (arith, not_below-prefix p rest a, l)
not_below-prefix [] rest (y ∷ a) l h = ground arith
not_below-prefix (x ∷ p) rest [] l h = ground arith

lt-prefix :
    (p rest b : Ip)
    → length p ≡ length b
    → compare_bytes p b ≡ Ordering.lt
    → not_above (compare_bytes (p ++ rest) b) ≡ true
unfolding compare_bytes
lt-prefix [] rest [] l h = cc
lt-prefix (x ∷ p) rest (y ∷ b) l h = ground (arith, lt-prefix p rest b, l)
lt-prefix [] rest (y ∷ b) l h = ground arith
lt-prefix (x ∷ p) rest [] l h = ground arith

other_family_allocatable :
    (r q : Text) (start end p rest target : Ip)
    → parse_ip_range r ≡ ok (start, end)
    → parse_ip (trim_space q) ≡ some target
    → normalize_ip target ≡ p ++ rest
    → length p ≡ length start
    → length p ≡ length end
    → not_below (compare_bytes p start) ≡ true
    → compare_bytes p end ≡ Ordering.lt
    → ip_allocatable q r ≡ true
unfolding ip_allocatable between
other_family_allocatable r q start end p rest target e n s ls le lo hi =
    rw
      (
        ip_allocatable,
        n,
        ip_allocatable,
        e,
        s,
        not_below-prefix p rest start ls lo,
        lt-prefix p rest end le hi,
      )
      refl

-- `AllocateSpecificIP` grants a request for an unused address of more bytes than the ends of the
-- range, an IPv6 address for a range of IPv4, when its first bytes lie between the two ends and
-- are not the last one.
pub other_family_granted :
    (a : IpAllocator) (r q : Text) (start end p rest target : Ip)
    → parse_ip_range r ≡ ok (start, end)
    → parse_ip (trim_space q) ≡ some target
    → normalize_ip target ≡ p ++ rest
    → length p ≡ length start
    → length p ≡ length end
    → not_below (compare_bytes p start) ≡ true
    → compare_bytes p end ≡ Ordering.lt
    → is_used a (canonical target) ≡ false
    → allocate_specific_ip a r q ≡ (ok (canonical target), mark_used a (canonical target))
unfolding allocate_specific_ip
other_family_granted a r q start end p rest target e n s ls le lo hi u =
    rw
      (
        allocate_specific_ip,
        n,
        other_family_allocatable r q start end p rest target e n s ls le lo hi,
        u,
      )
      refl
