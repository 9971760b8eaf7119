-- ===== src/Net/Addr.antt =====
-- `net.IP` as its bytes, `nil` as the empty list: `To4`, `To16`, `Equal`, `bytes.Compare`, and
-- `net.IPNet` with its mask.
use Prim.Native.Nat.{compare, Ordering, bit_and}
use helios_lb.Prelude.{
  ℕ, zero, suc, ◌+◌, ◌-◌, ◌*◌, ◌/◌, ◌^◌, Bool, true, false, ◌&&◌, ◌||◌, List, [], ◌∷◌, ◌++◌, Option,
  none, some, leb, ◌==◌, if◌then◌else◌, ◌<◌, All, length, take, drop, replicate, text_eq,
}

abbrev pub Ip : Type 0
Ip = List ℕ

abbrev pub IsBytes : Ip → Type 0
IsBytes = All (λ b. b < 256)

-- The first twelve bytes of an IPv4 address in the form of sixteen bytes.
abbrev pub v4_in_v6_prefix : Ip
v4_in_v6_prefix = 0 ∷ 0 ∷ 0 ∷ 0 ∷ 0 ∷ 0 ∷ 0 ∷ 0 ∷ 0 ∷ 0 ∷ 255 ∷ 255 ∷ []

-- `ip.To4()`; `none` is nil.
unfoldable pub to4 : Ip → Option Ip
unfolding text_eq
to4 ip =
    if length ip == 4
    then some ip
    else if length ip == 16 && text_eq (take 12 ip) v4_in_v6_prefix
    then some (drop 12 ip)
    else none

-- `ip.To16()`.
unfoldable pub to16 : Ip → Ip
to16 ip = if length ip == 4 then v4_in_v6_prefix ++ ip else if length ip == 16 then ip else []

-- `a.Equal(b)`: the two forms of an IPv4 address are equal.
unfoldable pub equal : Ip → Ip → Bool
unfolding text_eq
equal a b =
    if length a == length b
    then text_eq a b
    else if length a == 4 && length b == 16
    then text_eq (take 12 b) v4_in_v6_prefix && text_eq a (drop 12 b)
    else length a == 16
      && length b == 4
      && (text_eq (take 12 a) v4_in_v6_prefix && text_eq (drop 12 a) b)

-- `bytes.Compare`.
unfoldable pub compare_bytes : Ip → Ip → Ordering
compare_bytes [] [] = Ordering.eq
compare_bytes [] (b ∷ bs) = Ordering.lt
compare_bytes (a ∷ as') [] = Ordering.gt
compare_bytes (a ∷ as') (b ∷ bs) = elim (compare a b) [
  | Ordering.lt ↦ Ordering.lt
  | Ordering.eq ↦ compare_bytes as' bs
  | Ordering.gt ↦ Ordering.gt
]

-- `… <= 0` and `… >= 0` of a comparison.
abbrev pub not_above : Ordering → Bool
not_above Ordering.lt = true
not_above Ordering.eq = true
not_above Ordering.gt = false

abbrev pub not_below : Ordering → Bool
not_below Ordering.lt = false
not_below Ordering.eq = true
not_below Ordering.gt = true

pub record IpNet : Type 0 where
  pub ip : Ip
  pub mask : Ip

-- `net.CIDRMask` over `l` bytes.
unfoldable pub cidr_mask : ℕ → ℕ → Ip
cidr_mask zero n = []
cidr_mask (suc l) n = (if leb 8 n then 255 else 255 - 255 / 2 ^ n) ∷ cidr_mask l (n - 8)

-- The bits of a mask byte before its first zero bit, at most `k`.
leading_ones : ℕ → ℕ → ℕ
leading_ones zero b = 0
leading_ones (suc k) b =
    let more = suc (leading_ones k (b * 2 - 256)) in if leb 128 b then more else 0

-- `mask.Size()`: the ones of a mask, all before its zeros, and its bits; (0, 0) for any other mask.
unfoldable pub ones : Ip → Option ℕ
unfolding leading_ones text_eq
ones [] = some 0
ones (b ∷ m) =
    let more = ones m in
    if b == 255
    then elim more [ none ↦ none | some n ↦ some (8 + n) ]
    else let n = leading_ones 8 b in
      if b == 256 - 2 ^ (8 - n) && text_eq m (replicate (length m) 0) then some n else none

unfoldable pub mask_size : Ip → ℕ × ℕ
unfolding ones
mask_size m = elim (ones m) [ none ↦ (0, 0) | some n ↦ (n, 8 * length m) ]

-- `ip.Mask(m)` for a mask as long as the address.
unfoldable pub mask_ip : Ip → Ip → Ip
mask_ip [] m = []
mask_ip (b ∷ bs) [] = []
mask_ip (b ∷ bs) (c ∷ m) = bit_and b c ∷ mask_ip bs m

masked_equal : Ip → Ip → Ip → Bool
masked_equal [] b m = true
masked_equal (x ∷ a) [] m = true
masked_equal (x ∷ a) (y ∷ b) [] = true
masked_equal (x ∷ a) (y ∷ b) (c ∷ m) = bit_and x c == bit_and y c && masked_equal a b m

-- `networkNumberAndMask`.
network_number : IpNet → Ip × Ip
network_number n = pair (elim (to4 n.ip) [ none ↦ n.ip | some v4 ↦ v4 ])
  where
    pair : Ip → Ip × Ip
    pair ip =
        if length n.mask == 4 && length ip == 4 || length n.mask == 16 && length ip == 16
        then (ip, n.mask)
        else if length n.mask == 16 && length ip == 4
        then (ip, drop 12 n.mask)
        else ([], [])

-- `n.Contains(ip)`.
unfoldable pub net_contains : IpNet → Ip → Bool
unfolding masked_equal network_number to4
net_contains n ip =
    let (nn, m) = network_number n in
    let x : Ip = elim (to4 ip) [ none ↦ ip | some v4 ↦ v4 ] in
    length x == length nn && masked_equal nn x m
