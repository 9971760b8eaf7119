-- ===== src/Net/Masks.antt =====
-- Masks of a prefix length on bytes, and that `net.ParseCIDR` returns bytes.
use Prim.Native.Nat.{bit_and, bit_or}
use helios_lb.Prelude.{
  ℕ, zero, suc, ◌+◌, ◌-◌, ◌*◌, ◌/◌, ◌%◌, ◌^◌, ◌≤◌, ◌<◌, ◌≡◌, refl, ap, true, [], ◌∷◌, Option, none,
  some, ltb, leb, ◌==◌, ==_iff, if◌then◌else◌, length, arith, Text, Bool-cases, holds_throughout,
  holds_throughout-at, subst, sym, ◌∙◌, leb→le, ltb→lt, inl, inr,
}
use mathlib.Core.Option.{some-injective}
use helios_lb.Net.Addr.{Ip, IsBytes, IpNet, cidr_mask, mask_ip}
use helios_lb.Net.Parse.{
  Family, family_bytes, parse_addr, parse_cidr, network_of, before_slash, after_slash,
  prefix_length,
}
use helios_lb.Net.Bounds.{parse_addr-IsBytes}

-- The mask byte with `j` zero bits.
abbrev pub mask_byte : ℕ → ℕ
mask_byte j = 256 - 2 ^ j

and_table :
    holds_throughout (λ j. holds_throughout (λ b. bit_and b (mask_byte j) + b % 2 ^ j == b) 256) 9
    ≡ true
unfolding holds_throughout
and_table = refl

or_table :
    holds_throughout
      (λ j.
        holds_throughout
          (λ b. bit_or b (255 - mask_byte j) + 1 == bit_and b (mask_byte j) + 2 ^ j)
          256)
      9
    ≡ true
unfolding holds_throughout
or_table = refl

-- A mask byte clears the low bits.
pub and-mask_byte : (j b : ℕ) → j < 9 → b < 256 → bit_and b (mask_byte j) + b % 2 ^ j ≡ b
and-mask_byte j b hj hb =
    (==_iff _ b).0 (holds_throughout-at _ 256 b (holds_throughout-at _ 9 j and_table hj) hb)

-- Its complement sets them.
pub or-mask_byte :
    (j b : ℕ) → j < 9 → b < 256 → bit_or b (255 - mask_byte j) + 1 ≡ bit_and b (mask_byte j) + 2 ^ j
or-mask_byte j b hj hb =
    (==_iff _ _).0 (holds_throughout-at _ 256 b (holds_throughout-at _ 9 j or_table hj) hb)

or_lt_table :
    holds_throughout (λ j. holds_throughout (λ b. ltb (bit_or b (255 - mask_byte j)) 256) 256) 9
    ≡ true
unfolding holds_throughout
or_lt_table = refl

pub or-mask_byte-lt : (j b : ℕ) → j < 9 → b < 256 → bit_or b (255 - mask_byte j) < 256
or-mask_byte-lt j b hj hb =
    ltb→lt _ _ (holds_throughout-at _ 256 b (holds_throughout-at _ 9 j or_lt_table hj) hb)

head_table :
    holds_throughout (λ n. (if leb 8 n then 255 else 255 - 255 / 2 ^ n) == mask_byte (8 - n)) 9
    ≡ true
unfolding holds_throughout
head_table = refl

-- The first byte of a mask.
pub cidr_mask-suc : (l n : ℕ) → cidr_mask (suc l) n ≡ mask_byte (8 - n) ∷ cidr_mask l (n - 8)
unfolding cidr_mask
cidr_mask-suc l n = elim (Bool-cases (leb 9 n)) [
  | inl h ↦ let z : 8 - n ≡ 0 = ground arith in rw z (ground arith)
  | inr h ↦
      ap (λ b. b ∷ cidr_mask l (n - 8))
        ((==_iff _ _).0 (holds_throughout-at _ 9 n head_table (ground arith)))
]

pub length-cidr_mask : (l n : ℕ) → length (cidr_mask l n) ≡ l
unfolding cidr_mask
length-cidr_mask zero n = refl
length-cidr_mask (suc l) n = ap suc (length-cidr_mask l (n - 8))

pub length-mask_ip : (ip m : Ip) → length ip ≡ length m → length (mask_ip ip m) ≡ length ip
unfolding mask_ip
length-mask_ip [] m e = refl
length-mask_ip (b ∷ ip) [] e = absurd (omega arith)
length-mask_ip (b ∷ ip) (c ∷ m) e = ap suc (length-mask_ip ip m (omega arith))

pub mask_ip-IsBytes : (l n : ℕ) (ip : Ip) → IsBytes ip → IsBytes (mask_ip ip (cidr_mask l n))
unfolding mask_ip
mask_ip-IsBytes l n [] h = tt
mask_ip-IsBytes zero n (b ∷ ip) h = unfold cidr_mask in tt
mask_ip-IsBytes (suc l) n (b ∷ ip) (hb, h) =
    rw cidr_mask-suc
      (omega (arith, and-mask_byte (8 - n) b (omega arith) hb), mask_ip-IsBytes l (n - 8) ip h)

-- The bytes of a family, and the mask of a prefix length of it.
pub record IsNetwork (net : IpNet) (family : Family) (n : ℕ) : Type 0 where
  pub whole : length net.ip ≡ family_bytes family
  pub bytes : IsBytes net.ip
  pub masked : net.mask ≡ cidr_mask (family_bytes family) n
  pub in_family : n ≤ 8 * family_bytes family

network_of-IsNetwork :
    (m : Option (Family × Ip)) (k : Option ℕ) (net : IpNet)
    → ((family : Family) (b : Ip)
        → m ≡ some (family, b)
        → (length b ≡ family_bytes family) × IsBytes b)
    → network_of m k ≡ some net
    → (family : Family) × (n : ℕ) × IsNetwork net family n
unfolding network_of
network_of-IsNetwork none k net h t = cc
network_of-IsNetwork (some (family, b)) none net h t = cc
network_of-IsNetwork (some (family, b)) (some n) net h t =
    let (l, hb) = h family b refl in
    let m : Ip = cidr_mask (family_bytes family) n in
    let same : length b ≡ length m = l ∙ sym (length-cidr_mask (family_bytes family) n) in
    elim (Bool-cases (leb n (8 * family_bytes family))) [
      | inr z ↦ let e : none ≡ some net = rw (z, network_of) at t in cc
      | inl z ↦ (
        family,
        n,
        subst (λ x. IsNetwork x family n) (some-injective _ net (rw (z, network_of) at t))
            (record {
              whole = length-mask_ip b m same ∙ l;
              bytes = mask_ip-IsBytes (family_bytes family) n b hb;
              masked = refl;
              in_family = leb→le _ _ z;
            }),
      )
    ]

-- `net.ParseCIDR` returns the bytes of a family and a mask of it.
pub parse_cidr-IsNetwork :
    (s : Text) (net : IpNet)
    → parse_cidr s ≡ some net
    → (family : Family) × (n : ℕ) × IsNetwork net family n
unfolding parse_cidr
parse_cidr-IsNetwork s net t =
    network_of-IsNetwork (parse_addr (before_slash s)) (prefix_length (after_slash s)) net
      (λ family b e. parse_addr-IsBytes (before_slash s) family b e) t
