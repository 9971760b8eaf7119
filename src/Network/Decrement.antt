-- ===== src/Network/Decrement.antt =====
-- `DecrementIP` of internal/network/parse.go on the number of an address.
use native.Mathlib.Nat.{pow-suc}
use native.Mathlib.Decide.{dec_lt}
use helios_lb.Prelude.{
  ℕ, zero, suc, ◌+◌, ◌-◌, ◌*◌, ◌%◌, ◌^◌, ◌<◌, ◌≡◌, refl, ◌⊎◌, inl, inr, Bool, true, false, [], ◌∷◌,
  ◌==◌, if◌then◌else◌, length, get_or, set, arith, length-set,
}
use helios_lb.Net.Addr.{Ip, IsBytes}
use helios_lb.Network.Value.{value, set-IsBytes}
use helios_lb.Network.Parse.{decrement_loop, decrement_ip}

-- Whether the loop of `DecrementIP` borrows out of the first `i` bytes.
borrows : ℕ → Ip → Bool
borrows zero prev = true
borrows (suc i) prev =
    let b = (get_or prev i 0 + 255) % 256 in
    let rest = borrows i (set prev i b) in if b == 255 then rest else false

decrement_loop-cons :
    (i b : ℕ) (bs : Ip)
    → decrement_loop (suc i) (b ∷ bs)
      ≡ (if borrows i bs then (b + 255) % 256 else b) ∷ decrement_loop i bs
unfolding decrement_loop borrows
decrement_loop-cons zero b bs = ground arith
decrement_loop-cons (suc i) b bs =
    ground (arith, decrement_loop-cons i b (set bs i ((get_or bs i 0 + 255) % 256)))

borrows-cons :
    (i b : ℕ) (bs : Ip)
    → borrows (suc i) (b ∷ bs) ≡ (if borrows i bs then (b + 255) % 256 == 255 else false)
unfolding borrows
borrows-cons zero b bs = ground arith
borrows-cons (suc i) b bs =
    ground (arith, borrows-cons i b (set bs i ((get_or bs i 0 + 255) % 256)))

length-decrement_loop : (i : ℕ) (ip : Ip) → length (decrement_loop i ip) ≡ length ip
unfolding decrement_loop
length-decrement_loop zero ip = refl
length-decrement_loop (suc i) ip =
    let b = (get_or ip i 0 + 255) % 256 in
    ground (arith, length-decrement_loop i (set ip i b), length-set ip i b)

above_zero : (b : ℕ) → b < 256 → 0 < b → (b + 255) % 256 ≡ b - 1
above_zero b h k = omega arith

one_less : (b p v : ℕ) → 0 < b → (b - 1) * p + v + p ≡ b * p + v
one_less (suc b) p v h = grind arith
one_less zero p v h = elim h [ ]

decrement_loop-value :
    (ip : Ip)
    → IsBytes ip
    → ((borrows (length ip) ip ≡ true)
        × (value (decrement_loop (length ip) ip) + 1 ≡ 256 ^ length ip)
        × (value ip ≡ 0))
      ⊎ ((borrows (length ip) ip ≡ false) × (value (decrement_loop (length ip) ip) + 1 ≡ value ip))
unfolding value
decrement_loop-value [] h = unfold decrement_loop borrows in inl (refl, refl, refl)
decrement_loop-value (b ∷ bs) (hb, hs) =
    rw (decrement_loop-cons (length bs) b bs, borrows-cons (length bs) b bs)
      (elim (decrement_loop-value bs hs) [
        | inl (c, e, z) ↦
            rw (c, length-decrement_loop (length bs) bs, z)
              (elim (dec_lt 0 b) [
                | yes h ↦ rw (above_zero b hb h) (
                    inr (
                      ground arith,
                      omega (
                        arith,
                        e,
                        one_less b (256 ^ length bs) (value (decrement_loop (length bs) bs)) h,
                      ),
                    ))
                | no h ↦
                    rw (bottom_byte b h)
                      (inl (refl, omega (arith, e, pow-suc 256 (length bs)), omega arith))
              ])
        | inr (c, z) ↦ rw (c, length-decrement_loop (length bs) bs) (inr (refl, omega (arith, z)))
      ])
  where
    bottom_byte : (b : ℕ) → ¬ (0 < b) → b ≡ 0
    bottom_byte b k = omega arith

decrement_loop-IsBytes : (i : ℕ) (ip : Ip) → IsBytes ip → IsBytes (decrement_loop i ip)
unfolding decrement_loop
decrement_loop-IsBytes zero ip h = h
decrement_loop-IsBytes (suc i) ip h =
    let b = (get_or ip i 0 + 255) % 256 in
    let h' = set-IsBytes ip i b (omega arith) h in
    ground (arith, decrement_loop-IsBytes i (set ip i b) h', h')

pub length-decrement_ip : (ip : Ip) → length (decrement_ip ip) ≡ length ip
unfolding decrement_ip
length-decrement_ip ip = length-decrement_loop (length ip) ip

pub decrement_ip-IsBytes : (ip : Ip) → IsBytes ip → IsBytes (decrement_ip ip)
unfolding decrement_ip
decrement_ip-IsBytes ip h = decrement_loop-IsBytes (length ip) ip h

-- `DecrementIP` goes down by one, and from the lowest address to the highest of its family.
pub decrement_ip-value :
    (ip : Ip)
    → IsBytes ip
    → value (decrement_ip ip) + 1 ≡ (if value ip == 0 then 256 ^ length ip else value ip)
unfolding decrement_ip
decrement_ip-value ip h = elim (decrement_loop-value ip h) [
  | inl (_, e, z) ↦ rw (e, z) refl
  | inr (c, z) ↦ ground (arith, z)
]
