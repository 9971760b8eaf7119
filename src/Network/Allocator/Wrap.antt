-- ===== src/Network/Allocator/Wrap.antt =====
-- The scan of `AllocateIP` (internal/network/ip_allocator.go) past the last address of a family:
-- `IncrementIP` goes on at zero, which compares below the end.
use helios_lb.Prelude.{
  ℕ, zero, suc, ◌+◌, ◌-◌, ◌^◌, ◌≤◌, ◌<◌, ◌≡◌, refl, sym, ◌∙◌, ap, inl, inr, true, false, length,
  arith, Text, ok, le→leb, replicate, All-replicate, length-replicate,
}
use native.Mathlib.Decide.{dec_lt}
use native.Mathlib.Nat.{mod_self}
use helios_lb.Net.Addr.{Ip, IsBytes}
use helios_lb.Net.Print.{ip_string}
use helios_lb.Network.Parse.{parse_ip_range, increment_ip}
use helios_lb.Network.Value.{value, value-injective}
use helios_lb.Network.Increment.{length-increment_ip, increment_ip-IsBytes, increment_ip-value}
use helios_lb.Network.Allocator.{
  IpAllocator, Allocation, is_used, mark_used, scan, allocate_between, allocate_ip,
}
use helios_lb.Network.Allocator.Scan.{advance, Reaches, AllUsed, ScanOutcome, scan-ScanOutcome}
use helios_lb.Network.Allocator.Steps.{
  length-advance, advance-IsBytes, value-advance, not_above-value, equal_of_ne,
}
use helios_lb.Network.Allocator.Free.{InRange, allocate_ip-parsed}
use helios_lb.Network.Bounds.{parse_ip_range-AreEnds}

-- The address of a family whose bytes are all zero.
abbrev pub lowest : Ip → Ip
lowest ip = replicate (length ip) 0

value-lowest : (n : ℕ) → value (replicate n 0) ≡ 0
unfolding value
value-lowest zero = refl
value-lowest (suc n) = omega (arith, value-lowest n)

advance_last : (k : ℕ) (ip : Ip) → advance (suc k) ip ≡ increment_ip (advance k ip)
unfolding advance
advance_last zero ip = refl
advance_last (suc k) ip = advance_last k (increment_ip ip)

-- A range of several addresses that ends with the last address of its family.
pub record IsTopRange (start end : Ip) : Type 0 where
  pub start_bytes : IsBytes start
  pub end_bytes : IsBytes end
  pub family : length start ≡ length end
  pub several : value start < value end
  pub at_top : value end + 1 ≡ 256 ^ length start

module _ (start end : Ip) (p : IsTopRange start end) where
  span : ℕ
  span = value end - value start

  span_lem : span ≡ value end - value start
  unfolding span
  span_lem = refl

  at_span : value (advance span start) ≡ value end
  unfolding span
  at_span =
      value-advance (value end - value start) start p.start_bytes
        (omega (arith, p.several, p.at_top))
      ∙ omega (arith, p.several)

  goes_to_zero : value (increment_ip (advance span start)) ≡ 0
  goes_to_zero =
      increment_ip-value (advance span start) (advance-IsBytes span start p.start_bytes)
      ∙ rw (at_span, length-advance span start, p.at_top) (mod_self (256 ^ length start))

  -- One step past the end stands the lowest address.
  wraps : advance (suc span) start ≡ lowest start
  wraps =
      advance_last span start
      ∙ value-injective (increment_ip (advance span start)) (lowest start)
          (length-increment_ip (advance span start)
            ∙ length-advance span start
            ∙ sym (length-replicate {A = ℕ} (length start) 0))
          (increment_ip-IsBytes (advance span start) (advance-IsBytes span start p.start_bytes))
          (All-replicate (λ b. b < 256) (length start) 0 (omega arith))
          (goes_to_zero ∙ sym (value-lowest (length start)))

  below_end : (k : ℕ) → value (advance k start) ≤ value end → Reaches (advance k start) end
  below_end k h =
      not_above-value (advance k start) end (length-advance k start ∙ p.family)
        (advance-IsBytes k start p.start_bytes) p.end_bytes
      ∙ le→leb _ _ h

  in_range : (k : ℕ) → k ≤ span → InRange start end (advance k start)
  unfolding span
  in_range k h =
      let e : value (advance k start) ≡ value start + k =
        value-advance k start p.start_bytes (omega (arith, p.several, p.at_top)) in
      record {
        bytes = advance-IsBytes k start p.start_bytes;
        family = length-advance k start;
        above = omega (arith, e);
        below = omega (arith, e, p.several);
      }

  module _ (a : IpAllocator)
      (full : (y : Ip) → InRange start end y → is_used a (ip_string y) ≡ true)
      (free : is_used a (ip_string (lowest start)) ≡ false)
      (limit : value end - value start + 1 < a.max_scan) where
    lowest_free : is_used a (ip_string (advance (suc span) start)) ≡ false
    lowest_free = rw wraps free

    not_past : (k : ℕ) → AllUsed a start end k → k ≤ suc span
    not_past k h = elim (dec_lt (suc span) k) [
      | no m ↦ omega arith
      | yes m ↦ let c : true ≡ false = sym (h (suc span) m).1 ∙ lowest_free in cc
    ]

    stops :
        (r : Allocation)
        → ScanOutcome a.max_scan start end a r
        → r ≡ (ok (ip_string (lowest start)), mark_used a (ip_string (lowest start)))
    stops r (inl (k, l, (h, b, f), e)) = elim (dec_lt span k) [
      | no m ↦ let c : true ≡ false = sym (full _ (in_range k (omega arith))) ∙ f in cc
      | yes m ↦
          let q : k ≡ suc span = omega (arith, not_past k h) in
          let same : advance k start ≡ lowest start = ap (λ n. advance n start) q ∙ wraps in
          rw same at e
    ]
    stops r (inr (inl (k, l, h, b, e))) = elim (dec_lt span k) [
      | no m ↦ let c : true ≡ false = sym (below_end k (in_range k (omega arith)).below) ∙ b in cc
      | yes m ↦
          let q : k ≡ suc span = omega (arith, not_past k h) in
          let same : advance k start ≡ lowest start = ap (λ n. advance n start) q ∙ wraps in
          let zero_low : value (advance k start) ≤ value end =
            rw same (omega (arith, value-lowest (length start))) in
          let c : true ≡ false = sym (below_end k zero_low) ∙ b in cc
    ]
    stops r (inr (inr (h, b, e))) = absurd (omega (arith, not_past a.max_scan h, span_lem, limit))

    pub top_range_wraps :
        allocate_between a start end
        ≡ (ok (ip_string (lowest start)), mark_used a (ip_string (lowest start)))
    unfolding allocate_between
    top_range_wraps =
        rw (allocate_between, equal_of_ne start end p.family (omega (arith, p.several)))
          (stops (scan a.max_scan start end a) (scan-ScanOutcome a.max_scan start end a))

-- A range of several addresses that ends with the last address of its family, does not start with
-- the lowest, and has no free address left hands out the lowest address of the family, which is
-- outside the range, if that one is free and the scan gets there.
pub allocate_ip_wraps :
    (a : IpAllocator) (r : Text) (start end : Ip)
    → parse_ip_range r ≡ ok (start, end)
    → length start ≡ length end
    → 0 < value start
    → value start < value end
    → value end + 1 ≡ 256 ^ length start
    → ((y : Ip) → InRange start end y → is_used a (ip_string y) ≡ true)
    → is_used a (ip_string (lowest start)) ≡ false
    → value end - value start + 1 < a.max_scan
    → (allocate_ip a r ≡ (ok (ip_string (lowest start)), mark_used a (ip_string (lowest start))))
      × (¬ InRange start end (lowest start))
allocate_ip_wraps a r start end e l pos n t full free limit =
    let ((_, hs), (_, he)) = parse_ip_range-AreEnds r (start, end) e in
    (
      allocate_ip-parsed a r start end e
          ∙ top_range_wraps start end
              (record { start_bytes = hs; end_bytes = he; family = l; several = n; at_top = t }) a
              full free limit,
      λ v. omega (arith, v.above, pos, value-lowest (length start)),
    )
