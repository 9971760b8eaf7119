-- ===== src/Api/Webhook/Ranges.antt =====
-- `validateIPRange` (api/v1/heliosconfig_webhook.go): an accepted range can be allocated from.
use helios_lb.Prelude.{
  true, ◌⊎◌, inl, inr, ◌≤◌, ◌≡◌, refl, sym, ◌∙◌, inl, inr, List, [], ◌∷◌, none, some, leb→le, ◌==◌,
  ==_iff, length, arith, Bool-cases, Option-cases, ok, Text, text_eq, trim_space, contains, split,
}
use helios_lb.Net.Addr.{Ip, not_above}
use helios_lb.Net.Parse.{parse_ip, parse_cidr}
use helios_lb.Net.Bounds.{parse_ip-IsIpv6}
use helios_lb.Net.Masks.{parse_cidr-IsNetwork}
use helios_lb.Network.Parse.{normalize_ip, compare_ips, dashed_range, cidr_range, parse_ip_range}
use helios_lb.Network.Value.{value}
use helios_lb.Network.Bounds.{
  IsAddress, normalize_ip-normalize_ip, normal-IsAddress, cidr_range-SameLength,
}
use helios_lb.Network.Allocator.Steps.{not_above-value}
use helios_lb.Api.Webhook.{
  validate_ends, validate_dashed, validate_ip_range, range_required, invalid_cidr, invalid_start,
  invalid_end, mixed_families, reversed,
}

-- The text parses to a range of one family, in order unless it is a CIDR network.
abbrev pub Allocatable : Text → Type 0
Allocatable range =
    (start : Ip) × (end : Ip) × (parse_ip_range range ≡ ok (start, end))
    × (length start ≡ length end)
    × ((contains (trim_space range) b'/' ≡ true) ⊎ (value start ≤ value end))

validate_ends-order :
    (a b : Ip)
    → IsAddress (normalize_ip a)
    → IsAddress (normalize_ip b)
    → (normalize_ip (normalize_ip a) ≡ normalize_ip a)
    → (normalize_ip (normalize_ip b) ≡ normalize_ip b)
    → validate_ends (some a) (some b) ≡ none
    → (length (normalize_ip a) ≡ length (normalize_ip b))
      × (value (normalize_ip a) ≤ value (normalize_ip b))
unfolding validate_ends compare_ips
validate_ends-order a b (_, ha) (_, hb) na nb h =
    elim (Bool-cases (length (normalize_ip a) == length (normalize_ip b))) [
      | inr l ↦ let c : some mixed_families ≡ none = rw (validate_ends, l) at h in cc
      | inl l ↦
          let same = (==_iff _ _).0 l in
          elim (Bool-cases (not_above (compare_ips (normalize_ip a) (normalize_ip b)))) [
            | inr k ↦ let c : some reversed ≡ none = rw (validate_ends, l, k) at h in cc
            | inl k ↦ (
              same,
              leb→le _ _ (
                  sym (not_above-value (normalize_ip a) (normalize_ip b) same ha hb)
                  ∙ (rw (compare_ips, na, nb) at k)),
            )
          ]
    ]

validate_dashed-order :
    (parts : List Text)
    → validate_dashed parts ≡ none
    → (start : Ip) × (end : Ip) × (dashed_range parts ≡ ok (start, end))
      × (length start ≡ length end)
      × (value start ≤ value end)
unfolding validate_dashed validate_ends dashed_range
validate_dashed-order [] h = cc
validate_dashed-order (p ∷ []) h = cc
validate_dashed-order (p ∷ q ∷ r ∷ more) h = cc
validate_dashed-order (p ∷ q ∷ []) h = elim (Option-cases (parse_ip (trim_space p))) [
  | inl n ↦ let c : some invalid_start ≡ none = rw (validate_dashed, n) at h in cc
  | inr (a, n) ↦ elim (Option-cases (parse_ip (trim_space q))) [
    | inl m ↦ let c : some invalid_end ≡ none = rw (validate_dashed, n, m) at h in cc
    | inr (b, m) ↦
        let checked : validate_ends (some a) (some b) ≡ none = rw (validate_dashed, n, m) at h in
        let (l, k) =
          validate_ends-order a b (normal-IsAddress _ a n) (normal-IsAddress _ b m)
            (normalize_ip-normalize_ip a (parse_ip-IsIpv6 _ a n).0)
            (normalize_ip-normalize_ip b (parse_ip-IsIpv6 _ b m).0) checked in
        (normalize_ip a, normalize_ip b, rw (dashed_range, n, m) refl, l, k)
  ]
]

-- A range that `validateIPRange` accepts parses to a range of one family, whose ends are in order
-- unless it is written as a CIDR network.
pub validate_ip_range-Allocatable :
    (range : Text) → validate_ip_range range ≡ none → Allocatable range
unfolding validate_ip_range
validate_ip_range-Allocatable range h = elim (Bool-cases (text_eq range [])) [
  | inl z ↦ let c : some range_required ≡ none = rw (validate_ip_range, z) at h in cc
  | inr z ↦ elim (Bool-cases (contains (trim_space range) b'/')) [
    | inl c ↦ elim (Option-cases (parse_cidr (trim_space range))) [
      | inl n ↦ let d : some invalid_cidr ≡ none = rw (validate_ip_range, z, c, n) at h in cc
      | inr (net, n) ↦
          let (family, bits, v) = parse_cidr-IsNetwork (trim_space range) net n in
          (
            (cidr_range net).0,
            (cidr_range net).1,
            unfold parse_ip_range in rw (parse_ip_range, c, n) refl,
            cidr_range-SameLength net family bits v,
            inl c,
          )
    ]
    | inr c ↦ elim (Option-cases (parse_ip (trim_space range))) [
      | inr (ip, n) ↦ (
        normalize_ip ip,
        normalize_ip ip,
        unfold parse_ip_range in rw (parse_ip_range, c, n) refl,
        refl,
        inr (omega arith),
      )
      | inl n ↦
          let (start, end, e, l, k) =
            validate_dashed-order (split (trim_space range) b'-')
              (rw (validate_ip_range, z, c, n) at h) in
          (start, end, unfold parse_ip_range in rw (parse_ip_range, c, n, e) refl, l, inr k)
    ]
  ]
]
