-- ===== src/Network/Value.antt =====
-- The number that the bytes of an address stand for, and `bytes.Compare` on it.
use Prim.Native.Nat.{compare}
use native.Mathlib.Nat.{pow-suc}
use mathlib.Core.Path.{ap₂}
use helios_lb.Prelude.{
  ◌/◌, ◌%◌, ap, ◌∙◌, ℕ, zero, suc, ◌+◌, ◌*◌, ◌^◌, ◌<◌, ◌≡◌, refl, [], ◌∷◌, length, set, arith,
}
use helios_lb.Net.Addr.{Ip, IsBytes, compare_bytes}

-- Big-endian.
unfoldable pub value : Ip → ℕ
value [] = 0
value (b ∷ bs) = b * 256 ^ length bs + value bs

pub value-lt : (ip : Ip) → IsBytes ip → value ip < 256 ^ length ip
unfolding value
value-lt [] h = omega arith
value-lt (b ∷ bs) (hb, hs) = grind (arith, pow-suc 256 (length bs), value-lt bs hs)

-- A larger leading digit decides.
leading_lt : (x y p v w : ℕ) → x < y → v < p → x * p + v < y * p + w
leading_lt x y p v w h k = grind arith

-- Addresses of one family compare as their numbers.
pub compare_bytes-value :
    (a b : Ip)
    → length a ≡ length b
    → IsBytes a
    → IsBytes b
    → compare_bytes a b ≡ compare (value a) (value b)
unfolding compare_bytes value
compare_bytes-value [] [] e ha hb = refl
compare_bytes-value [] (y ∷ b) e ha hb = absurd (omega arith)
compare_bytes-value (x ∷ a) [] e ha hb = absurd (omega arith)
compare_bytes-value (x ∷ a) (y ∷ b) e (hx, ha) (hy, hb) =
    let same : length a ≡ length b = omega arith in
    let below : value b < 256 ^ length a = rw same (value-lt b hb) in
    rw (← same) (
      ground (
        arith,
        compare_bytes-value a b same ha hb,
        leading_lt x y (256 ^ length a) (value a) (value b),
        leading_lt y x (256 ^ length a) (value b) (value a),
        value-lt a ha,
        below,
      ))

pub set-IsBytes : (ip : Ip) (i v : ℕ) → v < 256 → IsBytes ip → IsBytes (set ip i v)
set-IsBytes [] i v hv h = tt
set-IsBytes (b ∷ bs) zero v hv h = (hv, h.1)
set-IsBytes (b ∷ bs) (suc i) v hv h = (h.0, set-IsBytes bs i v hv h.1)

-- An address of a family is determined by its number.
pub value-injective :
    (a b : Ip) → length a ≡ length b → IsBytes a → IsBytes b → value a ≡ value b → a ≡ b
unfolding value
value-injective [] [] e ha hb h = refl
value-injective [] (y ∷ b) e ha hb h = absurd (omega arith)
value-injective (x ∷ a) [] e ha hb h = absurd (omega arith)
value-injective (x ∷ a) (y ∷ b) e (hx, ha) (hy, hb) h =
    let same : length a ≡ length b = omega arith in
    let below : value b < 256 ^ length a = rw same (value-lt b hb) in
    let h' : x * 256 ^ length a + value a ≡ y * 256 ^ length a + value b = rw (← same) at h in
    let q : x ≡ y = ground (
      arith,
      leading_lt x y (256 ^ length a) (value a) (value b),
      leading_lt y x (256 ^ length a) (value b) (value a),
      value-lt a ha,
      below,
      h',
    ) in
    let t : value a ≡ value b = omega (arith, rw q at h') in
    ap₂ ◌∷◌ q (value-injective a b same ha hb t)

-- The bytes of a number, `k` of them.
unfoldable pub to_bytes : ℕ → ℕ → Ip
to_bytes zero v = []
to_bytes (suc k) v = v / 256 ^ k ∷ to_bytes k (v % 256 ^ k)

leading_digit : (b p v : ℕ) → v < p → (b * p + v) / p ≡ b
leading_digit b p v l = ground (
  arith,
  by_parts b p v l,
  leading_lt ((b * p + v) / p) b p ((b * p + v) % p) v,
  leading_lt b ((b * p + v) / p) p v ((b * p + v) % p),
  rest_lt b p v l,
)
  where
    by_parts : (b p v : ℕ) → v < p → (b * p + v) / p * p + (b * p + v) % p ≡ b * p + v
    by_parts b p v l = omega arith

    rest_lt : (b p v : ℕ) → v < p → (b * p + v) % p < p
    rest_lt b p v l = omega arith

later_digits : (b p v : ℕ) → v < p → (b * p + v) % p ≡ v
later_digits b p v l =
    let e : (b * p + v) / p * p + (b * p + v) % p ≡ b * p + v = omega arith in
    let q : b * p + (b * p + v) % p ≡ b * p + v = rw (leading_digit b p v l) at e in omega arith

-- An address is the bytes of its number.
pub to_bytes-value : (ip : Ip) → IsBytes ip → to_bytes (length ip) (value ip) ≡ ip
unfolding to_bytes value
to_bytes-value [] h = refl
to_bytes-value (b ∷ bs) (hb, hs) =
    let p = 256 ^ length bs in
    ap₂ ◌∷◌ (leading_digit b p (value bs) (value-lt bs hs)) (
      ap (to_bytes (length bs)) (later_digits b p (value bs) (value-lt bs hs))
      ∙ to_bytes-value bs hs)
