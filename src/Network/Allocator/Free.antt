-- ===== src/Network/Allocator/Free.antt =====
-- What `AllocateIP` (internal/network/ip_allocator.go) hands out of a range of several addresses.
use helios_lb.Prelude.{
  ℕ, zero, suc, ◌+◌, ◌-◌, ◌^◌, ◌≤◌, ◌<◌, ◌≡◌, ◌≢◌, refl, sym, ◌∙◌, ap, subst, ◌⊎◌, inl, inr, true,
  false, length, arith, Text, ok, err, leb→le, leb,
}
use helios_lb.Net.Addr.{Ip, IsBytes, compare_bytes, not_above}
use helios_lb.Net.Print.{ip_string}
use helios_lb.Network.Parse.{parse_ip_range}
use helios_lb.Network.Value.{value, value-lt}
use helios_lb.Network.Bounds.{parse_ip_range-AreEnds}
use helios_lb.Network.Allocator.{
  IpAllocator, exhausted, scan_limit, Allocation, is_used, mark_used, scan, allocate_between,
  allocate_ip,
}
use helios_lb.Network.Allocator.Scan.{advance, Reaches, AllUsed, ScanOutcome, scan-ScanOutcome}
use helios_lb.Network.Allocator.Steps.{
  length-advance, advance-IsBytes, value-advance, advance-eq, not_above-value, equal_of_ne,
}

-- `x` is an address of the family of `start`, in a range by its number.
pub record InRange (start end x : Ip) : Type 0 where
  pub bytes : IsBytes x
  pub family : length x ≡ length start
  pub above : value start ≤ value x
  pub below : value x ≤ value end

-- A range of one family, of more than one address, that ends before the last address of the family.
pub record IsPool (start end : Ip) : Type 0 where
  pub start_bytes : IsBytes start
  pub end_bytes : IsBytes end
  pub family : length start ≡ length end
  pub several : value start ≢ value end
  pub below_top : value end + 1 < 256 ^ length start

-- Every address of the range below `n` is used.
abbrev pub UsedBelow : IpAllocator → Ip → Ip → ℕ → Type 0
UsedBelow a start end n =
    (y : Ip) → InRange start end y → value y < n → is_used a (ip_string y) ≡ true

-- The lowest free address of the range, marked.
abbrev pub LowestFree : IpAllocator → Ip → Ip → Text → IpAllocator → Type 0
LowestFree a start end s a' =
    (x : Ip) × InRange start end x
    × (s ≡ ip_string x)
    × (is_used a s ≡ false)
    × UsedBelow a start end (value x)
    × (a' ≡ mark_used a s)

-- What a pool yields: its lowest free address; or an error, with the allocator as it was, when
-- every address is used, or the first `max_scan` ones are.
abbrev pub PoolOutcome : IpAllocator → Ip → Ip → Allocation → Type 0
PoolOutcome a start end r =
    ((s : Text) × (a' : IpAllocator) × (r ≡ (ok s, a')) × LowestFree a start end s a')
    ⊎ (((r ≡ (err exhausted, a)) × UsedBelow a start end (value end + 1))
        ⊎ ((r ≡ (err scan_limit, a))
            × (value start + a.max_scan ≤ value end)
            × UsedBelow a start end (value start + a.max_scan)))

module _ (a : IpAllocator) (start end : Ip) (p : IsPool start end) where
  between-scan : allocate_between a start end ≡ scan a.max_scan start end a
  unfolding allocate_between
  between-scan = rw (equal_of_ne start end p.family p.several)

  within :
      (k : ℕ)
      → not_above (compare_bytes (advance k start) end) ≡ leb (value (advance k start)) (value end)
  within k =
      not_above-value (advance k start) end (length-advance k start ∙ p.family)
        (advance-IsBytes k start p.start_bytes) p.end_bytes

  reached :
      (k : ℕ)
      → value start + k < 256 ^ length start
      → Reaches (advance k start) end
      → InRange start end (advance k start) × (value (advance k start) ≡ value start + k)
  reached k l r = (
    record {
      bytes = advance-IsBytes k start p.start_bytes;
      family = length-advance k start;
      above = omega (arith, at_k);
      below = leb→le _ _ (sym (within k) ∙ r);
    },
    at_k,
  )
    where
      at_k : value (advance k start) ≡ value start + k
      at_k = value-advance k start p.start_bytes l

  -- A scan that has come `k` addresses far has not left the family.
  room : (k : ℕ) → AllUsed a start end k → value start + k < 256 ^ length start
  room zero h = omega (arith, value-lt start p.start_bytes)
  room (suc k) h =
      let l = room k (λ j m. h j (omega arith)) in
      let (v, e) = reached k l (h k (omega arith)).0 in omega (arith, v.below, e, p.below_top)

  -- A visited address up to the end is one of the range.
  visited :
      (k : ℕ)
      → AllUsed a start end k
      → Reaches (advance k start) end
      → InRange start end (advance k start) × (value (advance k start) ≡ value start + k)
  visited k h r = reached k (room k h) r

  used_below : (k : ℕ) → AllUsed a start end k → UsedBelow a start end (value start + k)
  used_below k h y v l =
      subst (λ x. is_used a (ip_string x) ≡ true)
        (advance-eq start y p.start_bytes v.bytes v.family v.above)
        (h (value y - value start) (omega (arith, l, v.above))).1

  outcome : (r : Allocation) → ScanOutcome a.max_scan start end a r → PoolOutcome a start end r
  outcome r (inl (k, l, (h, b, f), e)) =
      let (v, n) = visited k h b in
      inl (
        ip_string (advance k start),
        mark_used a (ip_string (advance k start)),
        e,
        (advance k start, v, refl, f, (λ y w m. used_below k h y w (omega (arith, n, m))), refl),
      )
  outcome r (inr (inl (k, l, h, b, e))) =
      let n = value-advance k start p.start_bytes (room k h) in
      let past : value end < value start + k = ground (arith, within k) in
      inr (inl (e, λ y w m. used_below k h y w (omega (arith, past, m))))
  outcome r (inr (inr (h, b, e))) =
      let (v, n) = visited a.max_scan h b in
      inr (inr (e, omega (arith, n, v.below), used_below a.max_scan h))

  pub between_outcome : PoolOutcome a start end (allocate_between a start end)
  between_outcome =
      rw between-scan
        (outcome (scan a.max_scan start end a) (scan-ScanOutcome a.max_scan start end a))

-- The facts that a parsed range of one family needs to be a pool.
pub parsed-IsPool :
    (r : Text) (start end : Ip)
    → parse_ip_range r ≡ ok (start, end)
    → length start ≡ length end
    → value start ≢ value end
    → value end + 1 < 256 ^ length start
    → IsPool start end
parsed-IsPool r start end e l n t =
    let ((_, hs), (_, he)) = parse_ip_range-AreEnds r (start, end) e in
    record { start_bytes = hs; end_bytes = he; family = l; several = n; below_top = t }

pub allocate_ip-parsed :
    (a : IpAllocator) (r : Text) (start end : Ip)
    → parse_ip_range r ≡ ok (start, end)
    → allocate_ip a r ≡ allocate_between a start end
unfolding allocate_ip
allocate_ip-parsed a r start end e = rw (e, allocate_ip)

-- A range of one family and of several addresses, whose end is not the last address of the family,
-- yields its lowest free address and marks it; it yields an error and changes nothing when every
-- address of the range is used, or when the first `max_scan` ones are and the range goes on.
pub allocate_ip-PoolOutcome :
    (a : IpAllocator) (r : Text) (start end : Ip)
    → parse_ip_range r ≡ ok (start, end)
    → length start ≡ length end
    → value start ≢ value end
    → value end + 1 < 256 ^ length start
    → PoolOutcome a start end (allocate_ip a r)
allocate_ip-PoolOutcome a r start end e l n t =
    rw (allocate_ip-parsed a r start end e)
      (between_outcome a start end (parsed-IsPool r start end e l n t))

-- On a range of one family and of several addresses, whose end is not the last address of the
-- family, a free address among the first `max_scan` ones is enough for `AllocateIP` to return and
-- mark a free address.
pub allocate_ip_finds :
    (a : IpAllocator) (r : Text) (start end y : Ip)
    → parse_ip_range r ≡ ok (start, end)
    → length start ≡ length end
    → value start ≢ value end
    → value end + 1 < 256 ^ length start
    → InRange start end y
    → value y < value start + a.max_scan
    → is_used a (ip_string y) ≡ false
    → (s : Text) × (allocate_ip a r ≡ (ok s, mark_used a s)) × (is_used a s ≡ false)
allocate_ip_finds a r start end y e l n t v m f =
    found (allocate_ip-PoolOutcome a r start end e l n t)
  where
    found :
        PoolOutcome a start end (allocate_ip a r)
        → (s : Text) × (allocate_ip a r ≡ (ok s, mark_used a s)) × (is_used a s ≡ false)
    found (inl (s, a', q, (x, _, _, free, _, g))) = (s, q ∙ ap (λ b. (ok s, b)) g, free)
    found (inr (inl (_, u))) = let c : true ≡ false = sym (u y v (omega (arith, v.below))) ∙ f in cc
    found (inr (inr (_, _, u))) = let c : true ≡ false = sym (u y v m) ∙ f in cc
