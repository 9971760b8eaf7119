-- ===== src/Net/RoundTrip.antt =====
-- `ParseIP` behind `IP.String` and `strings.TrimSpace`, on IPv4 addresses.
use helios_lb.Prelude.{
  ℕ, ◌≤◌, ◌<◌, ◌≡◌, refl, ◌∙◌, [], ◌∷◌, ◌++◌, some, length, All, All-append, arith, Text, reverse,
  reverse-cons, reverse-reverse, trim_left, trim_space, is_space,
}
use helios_lb.Net.Addr.{Ip, IsBytes, to4, v4_in_v6_prefix}
use helios_lb.Net.Parse.{v4, notation_of, parse_addr, parse_ip, as_16}
use helios_lb.Net.Print.{decimal, dotted, ip_string}
use helios_lb.Net.Dotted.{parse_ipv4-dotted}

notation_of-decimal : (b : ℕ) (s : Text) → b < 256 → notation_of (decimal b ++ s) ≡ notation_of s
unfolding notation_of decimal
notation_of-decimal b s h = ground arith

-- A digit or a dot.
abbrev Printed : ℕ → Type 0
Printed c = (b'.' ≤ c) × (c ≤ b'9')

decimal-Printed : (b : ℕ) → b < 256 → All Printed (decimal b)
unfolding decimal
decimal-Printed b h = ground arith

trim_left-Printed : (s : Text) → All Printed s → trim_left s ≡ s
unfolding trim_left is_space
trim_left-Printed [] h = refl
trim_left-Printed (c ∷ s) ((lo, hi), h) = ground (arith, lo, hi)

reverse-Printed : (s : Text) → All Printed s → All Printed (reverse s)
reverse-Printed [] h = tt
reverse-Printed (c ∷ s) (p, h) =
    rw (reverse-cons c s) (All-append _ _ _ (reverse-Printed s h) (p, tt))

trim_space-Printed : (s : Text) → All Printed s → trim_space s ≡ s
unfolding trim_space
trim_space-Printed s h =
    rw (trim_left-Printed s h, trim_left-Printed (reverse s) (reverse-Printed s h))
      (reverse-reverse s)

-- Four bytes.
abbrev Quad : ℕ → ℕ → ℕ → ℕ → Type 0
Quad a b c d = (a < 256) × (b < 256) × (c < 256) × (d < 256)

dotted-Printed : (a b c d : ℕ) → Quad a b c d → All Printed (dotted (a ∷ b ∷ c ∷ d ∷ []))
unfolding dotted
dotted-Printed a b c d (ha, hb, hc, hd) = All-append _ _ _ (decimal-Printed a ha) (
  dot,
  All-append _ _ _ (decimal-Printed b hb)
      (dot, All-append _ _ _ (decimal-Printed c hc) (dot, decimal-Printed d hd)),
)
  where
    dot : Printed b'.'
    dot = (omega arith, omega arith)

dotted-v4 : (a b c d : ℕ) → a < 256 → notation_of (dotted (a ∷ b ∷ c ∷ d ∷ [])) ≡ v4
unfolding dotted
dotted-v4 a b c d h = notation_of-decimal a _ h ∙ unfold notation_of in refl

parse_ip-dotted :
    (a b c d : ℕ)
    → Quad a b c d
    → parse_ip (dotted (a ∷ b ∷ c ∷ d ∷ [])) ≡ some (v4_in_v6_prefix ++ a ∷ b ∷ c ∷ d ∷ [])
unfolding parse_ip parse_addr
parse_ip-dotted a b c d (ha, hb, hc, hd) =
    rw (parse_ip, parse_addr, dotted-v4 a b c d ha, parse_ipv4-dotted a b c d ha hb hc hd, as_16)
      refl

-- The sixteen bytes of an IPv4 address.
abbrev pub mapped : Ip → Ip
mapped ip = v4_in_v6_prefix ++ ip

-- The text of an IPv4 address, trimmed or not, is read as the address in its form of sixteen bytes.
pub parse_ip-ip_string :
    (ip : Ip) → length ip ≡ 4 → IsBytes ip → parse_ip (trim_space (ip_string ip)) ≡ some (mapped ip)
unfolding ip_string to4
parse_ip-ip_string (a ∷ b ∷ c ∷ d ∷ []) l (ha, (hb, (hc, (hd, u)))) =
    let q : Quad a b c d = (ha, hb, hc, hd) in
    rw (trim_space-Printed (dotted (a ∷ b ∷ c ∷ d ∷ [])) (dotted-Printed a b c d q))
      (parse_ip-dotted a b c d q)
parse_ip-ip_string [] l h = cc
parse_ip-ip_string (a ∷ []) l h = cc
parse_ip-ip_string (a ∷ b ∷ []) l h = cc
parse_ip-ip_string (a ∷ b ∷ c ∷ []) l h = cc
parse_ip-ip_string (a ∷ b ∷ c ∷ d ∷ e ∷ ip) l h = cc
