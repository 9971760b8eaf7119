-- ===== src/Network/Increment.antt =====
-- `IncrementIP` of internal/network/parse.go on the number of an address.
use native.Mathlib.Nat.{pow-suc, mod-eq_of_lt, mod_self}
use native.Mathlib.Decide.{dec_lt}
use helios_lb.Prelude.{
  ℕ, zero, suc, ◌+◌, ◌%◌, ◌^◌, ◌<◌, ◌≡◌, refl, sym, ◌⊎◌, inl, inr, Bool, true, false, [], ◌∷◌, ◌==◌,
  if◌then◌else◌, length, get_or, set, arith, length-set,
}
use helios_lb.Net.Addr.{Ip, IsBytes}
use helios_lb.Network.Value.{value, value-lt, set-IsBytes}
use helios_lb.Network.Parse.{increment_loop, increment_ip}

-- Whether the loop of `IncrementIP` carries out of the first `i` bytes.
carries : ℕ → Ip → Bool
carries zero next = true
carries (suc i) next =
    let b = (get_or next i 0 + 1) % 256 in
    let rest = carries i (set next i b) in if b == 0 then rest else false

increment_loop-cons :
    (i b : ℕ) (bs : Ip)
    → increment_loop (suc i) (b ∷ bs)
      ≡ (if carries i bs then (b + 1) % 256 else b) ∷ increment_loop i bs
unfolding increment_loop carries
increment_loop-cons zero b bs = ground arith
increment_loop-cons (suc i) b bs =
    ground (arith, increment_loop-cons i b (set bs i ((get_or bs i 0 + 1) % 256)))

carries-cons :
    (i b : ℕ) (bs : Ip)
    → carries (suc i) (b ∷ bs) ≡ (if carries i bs then (b + 1) % 256 == 0 else false)
unfolding carries
carries-cons zero b bs = ground arith
carries-cons (suc i) b bs = ground (arith, carries-cons i b (set bs i ((get_or bs i 0 + 1) % 256)))

length-increment_loop : (i : ℕ) (ip : Ip) → length (increment_loop i ip) ≡ length ip
unfolding increment_loop
length-increment_loop zero ip = refl
length-increment_loop (suc i) ip =
    let b = (get_or ip i 0 + 1) % 256 in
    ground (arith, length-increment_loop i (set ip i b), length-set ip i b)

below_255 : (b : ℕ) → b < 255 → (b + 1) % 256 ≡ b + 1
below_255 b h = omega arith

top_byte : (b : ℕ) → b < 256 → ¬ (b < 255) → b ≡ 255
top_byte b h k = omega arith

-- The loop adds one, and goes to zero when it carries out of every byte.
increment_loop-value :
    (ip : Ip)
    → IsBytes ip
    → ((carries (length ip) ip ≡ true)
        × (value (increment_loop (length ip) ip) ≡ 0)
        × (value ip + 1 ≡ 256 ^ length ip))
      ⊎ ((carries (length ip) ip ≡ false) × (value (increment_loop (length ip) ip) ≡ value ip + 1))
unfolding value
increment_loop-value [] h = unfold increment_loop carries in inl (refl, refl, refl)
increment_loop-value (b ∷ bs) (hb, hs) =
    rw (increment_loop-cons (length bs) b bs, carries-cons (length bs) b bs)
      (elim (increment_loop-value bs hs) [
        | inl (c, z, e) ↦
            rw (c, length-increment_loop (length bs) bs, z)
              (elim (dec_lt b 255) [
                | yes h ↦ rw (below_255 b h) (inr (ground arith, omega arith))
                | no h ↦
                    rw (top_byte b hb h)
                      (inl (refl, omega arith, omega (arith, pow-suc 256 (length bs))))
              ])
        | inr (c, z) ↦ rw (c, length-increment_loop (length bs) bs, z) (inr (refl, omega arith))
      ])

increment_loop-IsBytes : (i : ℕ) (ip : Ip) → IsBytes ip → IsBytes (increment_loop i ip)
unfolding increment_loop
increment_loop-IsBytes zero ip h = h
increment_loop-IsBytes (suc i) ip h =
    let b = (get_or ip i 0 + 1) % 256 in
    let h' = set-IsBytes ip i b (omega arith) h in
    ground (arith, increment_loop-IsBytes i (set ip i b) h', h')

pub length-increment_ip : (ip : Ip) → length (increment_ip ip) ≡ length ip
unfolding increment_ip
length-increment_ip ip = length-increment_loop (length ip) ip

pub increment_ip-IsBytes : (ip : Ip) → IsBytes ip → IsBytes (increment_ip ip)
unfolding increment_ip
increment_ip-IsBytes ip h = increment_loop-IsBytes (length ip) ip h

-- `IncrementIP` adds one to the number of an address, modulo the size of its family.
pub increment_ip-value :
    (ip : Ip) → IsBytes ip → value (increment_ip ip) ≡ (value ip + 1) % 256 ^ length ip
unfolding increment_ip
increment_ip-value ip h = elim (increment_loop-value ip h) [
  | inl (_, z, e) ↦ rw (z, e) (sym (mod_self (256 ^ length ip)))
  | inr (c, z) ↦ rw z (sym (mod-eq_of_lt (omega (arith, z, in_family))))
]
  where
    in_family : value (increment_loop (length ip) ip) < 256 ^ length ip
    in_family =
        rw (length-increment_loop (length ip) ip) at
          (value-lt (increment_loop (length ip) ip) (increment_loop-IsBytes (length ip) ip h))

-- Short of the last address of the family it is the next number.
pub increment_ip_below :
    (ip : Ip) → IsBytes ip → value ip + 1 < 256 ^ length ip → value (increment_ip ip) ≡ value ip + 1
increment_ip_below ip h k = rw (increment_ip-value ip h) (mod-eq_of_lt k)
