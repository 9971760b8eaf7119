-- ===== src/Net/Dotted.antt =====
-- The text of an IPv4 address is read back as that address.
use helios_lb.Prelude.{
  ℕ, suc, ◌+◌, ◌-◌, ◌*◌, ◌/◌, ◌%◌, ◌<◌, ◌≡◌, refl, sym, ◌∙◌, ap, false, ◌&&◌, List, [], ◌∷◌, ◌++◌,
  some, leb, ◌==◌, if◌then◌else◌, length, arith, Text, Bool-cases, inl, inr, leb→le, append-nil,
}
use helios_lb.Net.Parse.{fields_from, parse_ipv4}
use helios_lb.Net.Print.{decimal, dotted}

digit_read :
    (s : Text) (val n d v : ℕ) (fields : List ℕ)
    → d < 10
    → v ≡ val * 10 + d
    → v < 256
    → (n == 1 && val == 0) ≡ false
    → fields_from ((b'0' + d) ∷ s) val n fields ≡ fields_from s v (suc n) fields
unfolding fields_from
digit_read s val n d v fields small sum byte lead =
    let e : b'0' + d - b'0' ≡ d = omega arith in rw (e, lead, sym sum) (ground arith)

-- The digits of a byte.
abbrev width : ℕ → ℕ
width b = if leb 100 b then 3 else if leb 10 b then 2 else 1

decimal_read :
    (b : ℕ) (s : Text) (fields : List ℕ)
    → b < 256
    → fields_from (decimal b ++ s) 0 0 fields ≡ fields_from s b (width b) fields
unfolding decimal
decimal_read b s fields byte = elim (Bool-cases (leb 100 b)) [
  | inl q ↦
      let l = leb→le 100 b q in
      rw q (
        digit_read _ 0 0 (b / 100) (b / 100) fields (omega arith) (omega arith) (omega arith) refl
        ∙ (digit_read _ (b / 100) 1 (b / 10 % 10) (b / 10) fields (omega arith) (omega arith)
              (omega arith) (ground (arith, l))
            ∙ digit_read s (b / 10) 2 (b % 10) b fields (omega arith) (omega arith) byte refl))
  | inr q ↦ elim (Bool-cases (leb 10 b)) [
    | inl r ↦
        let u : b < 100 = ground (arith, q) in
        let l = leb→le 10 b r in
        rw (q, r)
          (digit_read _ 0 0 (b / 10) (b / 10) fields (omega arith) (omega arith) (omega arith) refl
            ∙ digit_read s (b / 10) 1 (b % 10) b fields (omega arith) (omega arith) byte
                (ground (arith, l)))
    | inr r ↦
        let u : b < 10 = ground (arith, r) in
        rw (q, r) (digit_read s 0 0 b b fields u (omega arith) byte refl)
  ]
]

-- A dot behind a byte, with another byte behind it.
dot_read :
    (b : ℕ) (s : Text) (val n : ℕ) (fields : List ℕ)
    → 0 < n
    → (length fields == 3) ≡ false
    → fields_from (b'.' ∷ (decimal b ++ s)) val n fields
      ≡ fields_from (decimal b ++ s) 0 0 (fields ++ val ∷ [])
unfolding fields_from decimal
dot_read b s val n fields p l = rw (fields_from, l) (ground arith)

width_positive : (b : ℕ) → 0 < width b
width_positive b = ground arith

-- One byte and the dot behind it.
byte_read :
    (b c : ℕ) (s : Text) (fields : List ℕ)
    → b < 256
    → (length fields == 3) ≡ false
    → fields_from (decimal b ++ b'.' ∷ (decimal c ++ s)) 0 0 fields
      ≡ fields_from (decimal c ++ s) 0 0 (fields ++ b ∷ [])
byte_read b c s fields byte l =
    decimal_read b (b'.' ∷ (decimal c ++ s)) fields byte
    ∙ dot_read c s b (width b) fields (width_positive b) l

last_read :
    (a b c d : ℕ)
    → d < 256
    → fields_from (decimal d) 0 0 (a ∷ b ∷ c ∷ []) ≡ some (a ∷ b ∷ c ∷ d ∷ [])
last_read a b c d byte =
    ap (λ s. fields_from s 0 0 (a ∷ b ∷ c ∷ [])) (sym (append-nil (decimal d)))
    ∙ (decimal_read d [] (a ∷ b ∷ c ∷ []) byte ∙ unfold fields_from in refl)

pub parse_ipv4-dotted :
    (a b c d : ℕ)
    → a < 256
    → b < 256
    → c < 256
    → d < 256
    → parse_ipv4 (dotted (a ∷ b ∷ c ∷ d ∷ [])) ≡ some (a ∷ b ∷ c ∷ d ∷ [])
unfolding parse_ipv4 dotted
parse_ipv4-dotted a b c d ha hb hc hd =
    byte_read a b (b'.' ∷ (decimal c ++ b'.' ∷ decimal d)) [] ha refl
    ∙ (byte_read b c (b'.' ∷ decimal d) (a ∷ []) hb refl
        ∙ (ap (λ s. fields_from (decimal c ++ b'.' ∷ s) 0 0 (a ∷ b ∷ []))
              (sym (append-nil (decimal d)))
            ∙ (byte_read c d [] (a ∷ b ∷ []) hc refl
                ∙ (ap (λ s. fields_from s 0 0 (a ∷ b ∷ c ∷ [])) (append-nil (decimal d))
                    ∙ last_read a b c d hd))))
