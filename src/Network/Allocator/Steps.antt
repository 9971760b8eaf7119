-- ===== src/Network/Allocator/Steps.antt =====
-- The addresses that the scan visits, as numbers, and the tests that it makes of them.
use helios_lb.Prelude.{
  ℕ, zero, suc, ◌+◌, ◌-◌, ◌^◌, ◌≤◌, ◌<◌, ◌≡◌, ◌≢◌, refl, sym, ◌∙◌, ap, false, length, arith, leb,
  text_eq, text_eq_iff, Bool-cases, inl, inr,
}
use helios_lb.Net.Addr.{Ip, IsBytes, compare_bytes, not_above, not_below, equal}
use helios_lb.Network.Parse.{increment_ip}
use helios_lb.Network.Value.{value, value-lt, value-injective, compare_bytes-value}
use helios_lb.Network.Increment.{length-increment_ip, increment_ip-IsBytes, increment_ip_below}
use helios_lb.Network.Allocator.Scan.{advance}

pub length-advance : (k : ℕ) (ip : Ip) → length (advance k ip) ≡ length ip
unfolding advance
length-advance zero ip = refl
length-advance (suc k) ip = length-advance k (increment_ip ip) ∙ length-increment_ip ip

pub advance-IsBytes : (k : ℕ) (ip : Ip) → IsBytes ip → IsBytes (advance k ip)
unfolding advance
advance-IsBytes zero ip h = h
advance-IsBytes (suc k) ip h = advance-IsBytes k (increment_ip ip) (increment_ip-IsBytes ip h)

-- Short of the end of the family the k-th address is `k` further.
pub value-advance :
    (k : ℕ) (ip : Ip)
    → IsBytes ip
    → value ip + k < 256 ^ length ip
    → value (advance k ip) ≡ value ip + k
unfolding advance
value-advance zero ip h l = omega arith
value-advance (suc k) ip h l =
    let e = increment_ip_below ip h (omega arith) in
    omega (
      arith,
      e,
      value-advance k (increment_ip ip) (increment_ip-IsBytes ip h)
          (rw (e, length-increment_ip ip) (omega arith)),
    )

-- The address of a number is that many steps from a lower one.
pub advance-eq :
    (ip y : Ip)
    → IsBytes ip
    → IsBytes y
    → length y ≡ length ip
    → value ip ≤ value y
    → advance (value y - value ip) ip ≡ y
advance-eq ip y h hy l le =
    let top : value y < 256 ^ length ip = rw l at (value-lt y hy) in
    value-injective _ y (length-advance _ ip ∙ sym l) (advance-IsBytes _ ip h) hy
      (value-advance (value y - value ip) ip h (omega arith) ∙ omega arith)

-- `bytes.Compare(a, b) <= 0` in one family.
pub not_above-value :
    (a b : Ip)
    → length a ≡ length b
    → IsBytes a
    → IsBytes b
    → not_above (compare_bytes a b) ≡ leb (value a) (value b)
not_above-value a b l ha hb = rw (compare_bytes-value a b l ha hb) (ground arith)

-- `bytes.Compare(a, b) >= 0` in one family.
pub not_below-value :
    (a b : Ip)
    → length a ≡ length b
    → IsBytes a
    → IsBytes b
    → not_below (compare_bytes a b) ≡ leb (value b) (value a)
not_below-value a b l ha hb = rw (compare_bytes-value a b l ha hb) (ground arith)

-- Addresses of one family and different numbers are not equal.
pub equal_of_ne : (a b : Ip) → length a ≡ length b → value a ≢ value b → equal a b ≡ false
unfolding equal
equal_of_ne a b l h = elim (Bool-cases (text_eq a b)) [
  | inl e ↦ absurd (h (ap value ((text_eq_iff a b).0 e)))
  | inr e ↦ rw (equal, l, e) (ground arith)
]
