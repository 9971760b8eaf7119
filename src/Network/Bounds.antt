-- ===== src/Network/Bounds.antt =====
-- Every range that `ParseIPRange` returns runs between two addresses of four or sixteen bytes
-- (internal/network/parse.go).
use helios_lb.Prelude.{
  ℕ, ◌-◌, ◌≤◌, ◌<◌, ◌≡◌, refl, sym, drop, ◌∙◌, ap, ◌⊎◌, inl, inr, Bool, true, false, List, [], ◌∷◌,
  some, if◌then◌else◌, length, take, All-drop, length-drop, arith, Text, Option-cases, Bool-cases,
  subst, ok, err, ok-injective, zero, suc, trim_space, contains, split, text_eq,
}
use helios_lb.Net.Addr.{Ip, IsBytes, IpNet, to4, to16, cidr_mask, v4_in_v6_prefix}
use helios_lb.Net.Parse.{Family, ipv4, ipv6, family_bytes, parse_ip, parse_cidr}
use helios_lb.Net.Bounds.{parse_ip-IsIpv6}
use helios_lb.Net.Masks.{IsNetwork, parse_cidr-IsNetwork, or-mask_byte-lt, cidr_mask-suc}
use helios_lb.Network.Parse.{
  normalize_ip, last_ip, cidr_range, dashed_range, parse_ip_range, invalid_cidr, invalid_addresses,
  increment_ip, decrement_ip,
}
use helios_lb.Network.Increment.{length-increment_ip, increment_ip-IsBytes}
use helios_lb.Network.Decrement.{length-decrement_ip, decrement_ip-IsBytes}

abbrev pub IsAddress : Ip → Type 0
IsAddress ip = ((length ip ≡ 4) ⊎ (length ip ≡ 16)) × IsBytes ip

-- The two ends of a range.
abbrev pub AreEnds : Ip × Ip → Type 0
AreEnds r = IsAddress r.0 × IsAddress r.1

-- `NormalizeIP` keeps four bytes, and makes four of an IPv4 address in sixteen.
pub normalize_ip-IsAddress : (ip : Ip) → IsAddress ip → IsAddress (normalize_ip ip)
unfolding normalize_ip to4 to16
normalize_ip-IsAddress ip (inl l, h) = rw (normalize_ip, to4, l) (inl l, h)
normalize_ip-IsAddress ip (inr l, h) = elim (Bool-cases (text_eq (take 12 ip) v4_in_v6_prefix)) [
  | inl e ↦
      rw (normalize_ip, to4, l, e)
        (inl (length-drop 12 ip ∙ ap (λ n. n - 12) l), All-drop (λ b. b < 256) 12 ip h)
  | inr e ↦ rw (normalize_ip, to4, l, e, to16, l) (inr l, h)
]

length-last_ip :
    (l n : ℕ) (ip : Ip) → length ip ≤ l → length (last_ip ip (cidr_mask l n)) ≡ length ip
unfolding last_ip
length-last_ip l n [] e = refl
length-last_ip zero n (b ∷ ip) e = absurd (omega arith)
length-last_ip (suc l) n (b ∷ ip) e =
    rw cidr_mask-suc (ap suc (length-last_ip l (n - 8) ip (omega arith)))

if-SameLength :
    (t : Bool) (r s : Ip × Ip)
    → length r.0 ≡ length r.1
    → length s.0 ≡ length s.1
    → length (if t then r else s).0 ≡ length (if t then r else s).1
if-SameLength true r s h k = h
if-SameLength false r s h k = k

last_ip-IsBytes : (l n : ℕ) (ip : Ip) → IsBytes ip → IsBytes (last_ip ip (cidr_mask l n))
unfolding last_ip
last_ip-IsBytes l n [] h = tt
last_ip-IsBytes zero n (b ∷ ip) h = unfold cidr_mask in tt
last_ip-IsBytes (suc l) n (b ∷ ip) (hb, h) =
    rw cidr_mask-suc (or-mask_byte-lt (8 - n) b (omega arith) hb, last_ip-IsBytes l (n - 8) ip h)

last_ip-IsAddress :
    (start mask : Ip) (l n : ℕ)
    → mask ≡ cidr_mask l n
    → length start ≤ l
    → IsAddress start
    → IsAddress (last_ip start mask)
last_ip-IsAddress start mask l n e k (d, h) =
    rw (e, length-last_ip l n start k) (d, last_ip-IsBytes l n start h)

if-AreEnds : (t : Bool) (r s : Ip × Ip) → AreEnds r → AreEnds s → AreEnds (if t then r else s)
if-AreEnds true r s h k = h
if-AreEnds false r s h k = k

increment_ip-IsAddress : (ip : Ip) → IsAddress ip → IsAddress (increment_ip ip)
increment_ip-IsAddress ip (d, h) = (rw (length-increment_ip ip) d, increment_ip-IsBytes ip h)

decrement_ip-IsAddress : (ip : Ip) → IsAddress ip → IsAddress (decrement_ip ip)
decrement_ip-IsAddress ip (d, h) = (rw (length-decrement_ip ip) d, decrement_ip-IsBytes ip h)

length-normalize_ip-le : (ip : Ip) → IsAddress ip → length (normalize_ip ip) ≤ length ip
unfolding normalize_ip to4 to16
length-normalize_ip-le ip (inl l, h) = rw (normalize_ip, to4, l) (omega arith)
length-normalize_ip-le ip (inr l, h) = elim (Bool-cases (text_eq (take 12 ip) v4_in_v6_prefix)) [
  | inl e ↦ rw (normalize_ip, to4, l, e) (omega (arith, l, length-drop 12 ip))
  | inr e ↦ rw (normalize_ip, to4, l, e, to16, l) (omega (arith, l))
]

family-IsAddress :
    (family : Family) (ip : Ip) → length ip ≡ family_bytes family → IsBytes ip → IsAddress ip
family-IsAddress ipv4 ip l h = (inl l, h)
family-IsAddress ipv6 ip l h = (inr l, h)

cidr_range-AreEnds :
    (net : IpNet) (family : Family) (n : ℕ) → IsNetwork net family n → AreEnds (cidr_range net)
unfolding cidr_range
cidr_range-AreEnds net family n v =
    if-AreEnds _ _ _ (increment_ip-IsAddress start at_start, decrement_ip-IsAddress end at_end)
      (at_start, at_end)
  where
    start : Ip
    start = normalize_ip net.ip

    end : Ip
    end = last_ip start net.mask

    at_ip : IsAddress net.ip
    at_ip = family-IsAddress family net.ip v.whole v.bytes

    at_start : IsAddress start
    at_start = normalize_ip-IsAddress net.ip at_ip

    at_end : IsAddress end
    at_end =
        last_ip-IsAddress start net.mask (family_bytes family) n v.masked
          (omega (arith, v.whole, length-normalize_ip-le net.ip at_ip)) at_start

pub normal-IsAddress : (s : Text) (ip : Ip) → parse_ip s ≡ some ip → IsAddress (normalize_ip ip)
normal-IsAddress s ip e =
    let (l, h) = parse_ip-IsIpv6 s ip e in normalize_ip-IsAddress ip (inr l, h)

dashed_range-AreEnds : (ps : List Text) (r : Ip × Ip) → dashed_range ps ≡ ok r → AreEnds r
unfolding dashed_range
dashed_range-AreEnds [] r t = cc
dashed_range-AreEnds (p ∷ []) r t = cc
dashed_range-AreEnds (p ∷ q ∷ s ∷ more) r t = cc
dashed_range-AreEnds (p ∷ q ∷ []) r t = elim (Option-cases (parse_ip (trim_space p))) [
  | inl n ↦ let e : err invalid_addresses ≡ ok r = rw (n, dashed_range) at t in cc
  | inr (a, n) ↦ elim (Option-cases (parse_ip (trim_space q))) [
    | inl m ↦ let e : err invalid_addresses ≡ ok r = rw (n, m, dashed_range) at t in cc
    | inr (b, m) ↦
        subst AreEnds (ok-injective _ r (rw (n, m, dashed_range) at t))
          (normal-IsAddress _ a n, normal-IsAddress _ b m)
  ]
]

-- `NormalizeIP` of a normal form is that form.
pub normalize_ip-normalize_ip :
    (ip : Ip) → length ip ≡ 16 → normalize_ip (normalize_ip ip) ≡ normalize_ip ip
unfolding normalize_ip to4 to16
normalize_ip-normalize_ip ip l = elim (Bool-cases (text_eq (take 12 ip) v4_in_v6_prefix)) [
  | inl e ↦
      let four : length (drop 12 ip) ≡ 4 = length-drop 12 ip ∙ ap (λ n. n - 12) l in
      rw (normalize_ip, to4, l, e) (rw (normalize_ip, to4, four) refl)
  | inr e ↦
      let same : normalize_ip ip ≡ ip = rw (normalize_ip, to4, l, e, to16, l) refl in
      ap normalize_ip same
]

pub cidr_range-SameLength :
    (net : IpNet) (family : Family) (n : ℕ)
    → IsNetwork net family n
    → length (cidr_range net).0 ≡ length (cidr_range net).1
unfolding cidr_range
cidr_range-SameLength net family n v =
    if-SameLength _ _ _
      (length-increment_ip start ∙ same ∙ sym (length-decrement_ip (last_ip start net.mask))) same
  where
    start : Ip
    start = normalize_ip net.ip

    same : length start ≡ length (last_ip start net.mask)
    same = rw v.masked (
        sym (
          length-last_ip (family_bytes family) n start (
            omega (
              arith,
              length-normalize_ip-le net.ip (family-IsAddress family net.ip v.whole v.bytes),
              v.whole,
            ))))

-- A range that parses runs between two addresses.
pub parse_ip_range-AreEnds : (s : Text) (r : Ip × Ip) → parse_ip_range s ≡ ok r → AreEnds r
unfolding parse_ip_range
parse_ip_range-AreEnds s r t = elim (Bool-cases (contains (trim_space s) b'/')) [
  | inl c ↦ elim (Option-cases (parse_cidr (trim_space s))) [
    | inl n ↦ let e : err invalid_cidr ≡ ok r = rw (c, n, parse_ip_range) at t in cc
    | inr (net, n) ↦
        let (family, bits, v) = parse_cidr-IsNetwork (trim_space s) net n in
        subst AreEnds (ok-injective _ r (rw (c, n, parse_ip_range) at t))
          (cidr_range-AreEnds net family bits v)
  ]
  | inr c ↦ elim (Option-cases (parse_ip (trim_space s))) [
    | inl n ↦ dashed_range-AreEnds (split (trim_space s) b'-') r (rw (c, n, parse_ip_range) at t)
    | inr (ip, n) ↦
        subst AreEnds (ok-injective _ r (rw (c, n, parse_ip_range) at t))
          (normal-IsAddress _ ip n, normal-IsAddress _ ip n)
  ]
]
