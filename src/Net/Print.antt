-- ===== src/Net/Print.antt =====
-- `ip.String()`, by `netip.Addr.String`: dotted decimal for IPv4, groups with `::` for IPv6.
use helios_lb.Prelude.{
  ℕ, suc, ◌+◌, ◌-◌, ◌*◌, ◌/◌, ◌%◌, List, [], ◌∷◌, ◌++◌, none, some, ltb, leb, ◌==◌, ◌&&◌,
  if◌then◌else◌, length, take, drop, Text,
}
use helios_lb.Net.Addr.{Ip, to4}

-- A byte in decimal, with no leading zero.
unfoldable pub decimal : ℕ → Text
decimal b =
    if leb 100 b
    then (b'0' + b / 100) ∷ (b'0' + b / 10 % 10) ∷ (b'0' + b % 10) ∷ []
    else if leb 10 b
    then (b'0' + b / 10) ∷ (b'0' + b % 10) ∷ []
    else (b'0' + b) ∷ []

hex_char : ℕ → ℕ
hex_char d = if ltb d 10 then b'0' + d else b'a' + d - 10

-- A group in hexadecimal, with no leading zero.
unfoldable pub hexadecimal : ℕ → Text
unfolding hex_char
hexadecimal x =
    let low = hex_char (x % 16) ∷ [] in
    let low2 = hex_char (x / 16 % 16) ∷ low in
    let low3 = hex_char (x / 256 % 16) ∷ low2 in
    if leb 0x1000 x
    then hex_char (x / 4096) ∷ low3
    else if leb 0x100 x
    then low3
    else if leb 0x10 x
    then low2
    else low

-- The fields of an IPv4 address with dots between them.
unfoldable pub dotted : Ip → Text
unfolding decimal
dotted [] = []
dotted (b ∷ []) = decimal b
dotted (b ∷ c ∷ bs) = decimal b ++ b'.' ∷ dotted (c ∷ bs)

-- The 16-bit groups of the bytes.
groups : Ip → List ℕ
groups [] = []
groups (b ∷ []) = []
groups (b ∷ c ∷ bs) = (b * 256 + c) ∷ groups bs

-- The zeros at the front.
zero_run : List ℕ → ℕ
zero_run [] = 0
zero_run (g ∷ gs) = let n = suc (zero_run gs) in if g == 0 then n else 0

-- The first longest run of two or more zero groups: its place and its length.
longest_run : List ℕ → ℕ → ℕ × ℕ → ℕ × ℕ
longest_run [] i best = best
longest_run (g ∷ gs) i best =
    let n = zero_run (g ∷ gs) in
    longest_run gs (suc i) (if leb 2 n && ltb best.1 n then (i, n) else best)

joined : List ℕ → Text
unfolding hexadecimal
joined [] = []
joined (g ∷ []) = hexadecimal g
joined (g ∷ h ∷ gs) = hexadecimal g ++ b':' ∷ joined (h ∷ gs)

unfoldable pub colons : Ip → Text
unfolding joined longest_run zero_run groups
colons ip =
    let gs = groups ip in
    let (start, n) = longest_run gs 0 (0, 0) in
    if n == 0
    then joined gs
    else joined (take start gs) ++ b':' ∷ b':' ∷ joined (drop (start + n) gs)

hex_bytes : Ip → Text
unfolding hex_char
hex_bytes [] = []
hex_bytes (b ∷ bs) = hex_char (b / 16) ∷ hex_char (b % 16) ∷ hex_bytes bs

-- `ip.String()`.
unfoldable pub ip_string : Ip → Text
unfolding to4 dotted colons hex_bytes
ip_string ip = elim (to4 ip) [
  | some v4 ↦ dotted v4
  | none ↦
      if length ip == 0
      then b'<' ∷ b'n' ∷ b'i' ∷ b'l' ∷ b'>' ∷ []
      else if length ip == 16
      then colons ip
      else b'?' ∷ hex_bytes ip
]
