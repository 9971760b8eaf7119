-- ===== src/Network/Allocator/Specific.antt =====
-- `AllocateSpecificIP` and `IPAllocatable` (internal/network/ip_allocator.go).
use helios_lb.Prelude.{
  ◌≡◌, sym, ◌∙◌, ◌⊎◌, inl, inr, true, false, none, some, ◌&&◌, ◌≤◌, ◌↔◌, Text, ok, err, Bool-cases,
  Option-cases, trim_space, length, leb, leb→le, le→leb, &&_split,
}
use helios_lb.Net.Addr.{Ip, IsBytes}
use helios_lb.Net.Parse.{parse_ip}
use helios_lb.Net.Print.{ip_string}
use helios_lb.Network.Parse.{parse_ip_range, normalize_ip}
use helios_lb.Network.Value.{value}
use helios_lb.Network.Bounds.{parse_ip_range-AreEnds, normal-IsAddress}
use helios_lb.Network.Allocator.{
  IpAllocator, Allocation, is_used, mark_used, between, ip_allocatable, allocate_specific_ip,
  not_an_ip, not_allocatable, already_allocated,
}
use helios_lb.Network.Allocator.Steps.{not_above-value, not_below-value}

-- The text that stands for a parsed address in the map.
abbrev pub canonical : Ip → Text
canonical target = ip_string (normalize_ip target)

-- The branches of a request for `target`.
abbrev pub RequestCases : IpAllocator → Text → Text → Ip → Allocation → Type 0
RequestCases a r q target m =
    ((ip_allocatable q r ≡ false) × (m ≡ (err not_allocatable, a)))
    ⊎ (((ip_allocatable q r ≡ true)
          × (is_used a (canonical target) ≡ true)
          × (m ≡ (err already_allocated, a)))
        ⊎ ((ip_allocatable q r ≡ true)
            × (is_used a (canonical target) ≡ false)
            × (m ≡ (ok (canonical target), mark_used a (canonical target)))))

abbrev pub SpecificCases : IpAllocator → Text → Text → Allocation → Type 0
SpecificCases a r q m =
    ((parse_ip (trim_space q) ≡ none) × (m ≡ (err not_an_ip, a)))
    ⊎ ((target : Ip) × (parse_ip (trim_space q) ≡ some target) × RequestCases a r q target m)

pub request_cases :
    (a : IpAllocator) (r q : Text) (target : Ip)
    → parse_ip (trim_space q) ≡ some target
    → RequestCases a r q target (allocate_specific_ip a r q)
unfolding allocate_specific_ip
request_cases a r q target n = elim (Bool-cases (ip_allocatable q r)) [
  | inr b ↦ inl (b, rw (allocate_specific_ip, n, b))
  | inl b ↦ elim (Bool-cases (is_used a (canonical target))) [
    | inl u ↦ inr (inl (b, u, rw (allocate_specific_ip, n, b, u)))
    | inr u ↦ inr (inr (b, u, rw (allocate_specific_ip, n, b, u)))
  ]
]

pub specific_cases :
    (a : IpAllocator) (r q : Text) → SpecificCases a r q (allocate_specific_ip a r q)
specific_cases a r q = elim (Option-cases (parse_ip (trim_space q))) [
  | inl n ↦ inl (n, unfold allocate_specific_ip in rw (allocate_specific_ip, n))
  | inr (target, n) ↦ inr (target, n, request_cases a r q target n)
]

-- In one family `IPAllocatable` compares numbers.
pub between-value :
    (start end ip : Ip)
    → IsBytes start
    → IsBytes end
    → IsBytes ip
    → length ip ≡ length start
    → length ip ≡ length end
    → between start end ip ≡ (leb (value start) (value ip) && leb (value ip) (value end))
unfolding between
between-value start end ip hs he hi l k =
    rw (between, not_below-value ip start l hi hs, not_above-value ip end k hi he)

pub ip_allocatable-parsed :
    (q r : Text) (target start end : Ip)
    → parse_ip (trim_space q) ≡ some target
    → parse_ip_range r ≡ ok (start, end)
    → ip_allocatable q r ≡ between start end (normalize_ip target)
unfolding ip_allocatable
ip_allocatable-parsed q r target start end n e = rw (ip_allocatable, n, e)

-- A request for an address of the family of a range succeeds exactly when the address lies between
-- the ends of the range and is not in use. It then gets its own canonical text, which is marked.
pub allocate_specific_ip_iff :
    (a : IpAllocator) (r q : Text) (target start end : Ip)
    → parse_ip (trim_space q) ≡ some target
    → parse_ip_range r ≡ ok (start, end)
    → length (normalize_ip target) ≡ length start
    → length start ≡ length end
    → (allocate_specific_ip a r q ≡ (ok (canonical target), mark_used a (canonical target))) ↔ (
        (value start ≤ value (normalize_ip target))
        × (value (normalize_ip target) ≤ value end)
        × (is_used a (canonical target) ≡ false))
allocate_specific_ip_iff a r q target start end n e l k = (forth, back)
  where
    ends : IsBytes start × IsBytes end
    ends = let ((_, hs), (_, he)) = parse_ip_range-AreEnds r (start, end) e in (hs, he)

    tested : ip_allocatable q r ≡ (
        leb (value start) (value (normalize_ip target))
        && leb (value (normalize_ip target)) (value end))
    tested =
        ip_allocatable-parsed q r target start end n e
        ∙ between-value start end (normalize_ip target) ends.0 ends.1
            (normal-IsAddress (trim_space q) target n).1 l (l ∙ k)

    forth :
        allocate_specific_ip a r q ≡ (ok (canonical target), mark_used a (canonical target))
        → (value start ≤ value (normalize_ip target))
          × (value (normalize_ip target) ≤ value end)
          × (is_used a (canonical target) ≡ false)
    forth h = elim (request_cases a r q target n) [
      | inl (b, g) ↦ cc
      | inr (inl (b, u, g)) ↦ cc
      | inr (inr (b, u, g)) ↦
          let (x, y) = &&_split _ _ (sym tested ∙ b) in (leb→le _ _ x, leb→le _ _ y, u)
    ]

    back :
        (value start ≤ value (normalize_ip target))
          × (value (normalize_ip target) ≤ value end)
          × (is_used a (canonical target) ≡ false)
        → allocate_specific_ip a r q ≡ (ok (canonical target), mark_used a (canonical target))
    back (x, y, u) =
        let t : ip_allocatable q r ≡ true = tested ∙ rw (le→leb _ _ x, le→leb _ _ y) in
        elim (request_cases a r q target n) [
          | inl (b, g) ↦ cc
          | inr (inl (b, v, g)) ↦ cc
          | inr (inr (b, v, g)) ↦ g
        ]
