-- ===== src/Prelude/Strings.antt =====
-- A Go string as the list of its code points, and the functions of package `strings` in use.
use Prim.Native.Nat.{ℕ, zero, suc, ◌+◌, ◌/◌, ◌%◌}
use Prim.Native.Char.{code}
use Prim.Native.String.{String}
use mathlib.Core.Path.{◌≡◌, refl}
use mathlib.Core.Logic.{◌↔◌}
use mathlib.Core.Bool.{Bool, true, false, ◌&&◌, ◌||◌}
use mathlib.Core.List.{List, [], ◌∷◌, ◌++◌, reverse}
use native.Mathlib.Omega.{arith}
use helios_lb.Prelude.Tests.{◌==◌, leb, if◌then◌else◌}

abbrev pub Text : Type 0
Text = List ℕ

-- The code points of a literal.
abbrev pub codes : String → Text
codes String.[] = []
codes (String.◌∷◌ c s) = code c ∷ codes s

-- `a == b` on strings.
unfoldable pub text_eq : Text → Text → Bool
text_eq [] [] = true
text_eq [] (d ∷ t) = false
text_eq (c ∷ s) [] = false
text_eq (c ∷ s) (d ∷ t) = c == d && text_eq s t

pub text_eq_refl : (s : Text) → text_eq s s ≡ true
unfolding text_eq
text_eq_refl [] = refl
text_eq_refl (c ∷ s) = ground (arith, text_eq_refl s)

pub eq_of_text_eq : (s t : Text) → text_eq s t ≡ true → s ≡ t
unfolding text_eq
eq_of_text_eq [] [] h = refl
eq_of_text_eq [] (d ∷ t) h = cc
eq_of_text_eq (c ∷ s) [] h = cc
eq_of_text_eq (c ∷ s) (d ∷ t) h = ground (arith, eq_of_text_eq s t)

pub text_eq_iff : (s t : Text) → (text_eq s t ≡ true) ↔ (s ≡ t)
text_eq_iff s t = (eq_of_text_eq s t, λ e. rw e (text_eq_refl t))

-- `unicode.IsSpace`.
unfoldable pub is_space : ℕ → Bool
is_space c =
    leb 0x09 c && leb c 0x0d
    || c == 0x20
    || c == 0x85
    || c == 0xa0
    || c == 0x1680
    || leb 0x2000 c && leb c 0x200a
    || c == 0x2028
    || c == 0x2029
    || c == 0x202f
    || c == 0x205f
    || c == 0x3000

unfoldable pub trim_left : Text → Text
trim_left [] = []
trim_left (c ∷ s) = if is_space c then trim_left s else c ∷ s

-- `strings.TrimSpace`.
unfoldable pub trim_space : Text → Text
unfolding is_space trim_left
trim_space s = reverse (trim_left (reverse (trim_left s)))

-- `strings.Contains` with a text of one character.
unfoldable pub contains : Text → ℕ → Bool
contains [] c = false
contains (d ∷ s) c = d == c || contains s c

split_from : ℕ → Text → Text → List Text
split_from c [] part = part ∷ []
split_from c (d ∷ s) part = elim (d == c) [
  | true ↦ part ∷ split_from c s []
  | false ↦ split_from c s (part ++ d ∷ [])
]

-- `strings.Split` at one character.
unfoldable pub split : Text → ℕ → List Text
unfolding split_from
split s c = split_from c s []

-- The digits of a number that has at most as many as there is fuel, in front of a text.
digits_of : ℕ → ℕ → Text → Text
digits_of zero n s = s
digits_of (suc fuel) n s =
    let d = b'0' + n % 10 in
    let more = digits_of fuel (n / 10) (d ∷ s) in if leb 10 n then more else d ∷ s

-- `strconv.Itoa` on a number that is not negative.
unfoldable pub itoa : ℕ → Text
unfolding digits_of
itoa n = digits_of (suc n) n []
