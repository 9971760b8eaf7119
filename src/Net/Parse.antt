-- ===== src/Net/Parse.antt =====
-- `net.ParseIP` and `net.ParseCIDR`, by `netip.ParseAddr`. An address with a zone is refused, as
-- both functions refuse it.
use helios_lb.Prelude.{
  ℕ, zero, suc, ◌+◌, ◌-◌, ◌*◌, ◌/◌, ◌%◌, Bool, true, false, ◌&&◌, ◌||◌, List, [], ◌∷◌, ◌++◌, Option,
  none, some, ltb, leb, ◌==◌, if◌then◌else◌, length, take, drop, replicate, Text, contains,
}
use helios_lb.Net.Addr.{Ip, IpNet, cidr_mask, mask_ip, v4_in_v6_prefix}

abbrev is_digit : ℕ → Bool
is_digit c = leb b'0' c && leb c b'9'

abbrev is_nil : Text → Bool
is_nil [] = true
is_nil (c ∷ s) = false

-- `parseIPv4Fields`: the unread text, the value and the digits of the current field, and the fields
-- that are complete.
unfoldable pub fields_from : Text → ℕ → ℕ → List ℕ → Option Ip
fields_from [] val digits fields = if length fields == 3 then some (fields ++ val ∷ []) else none
fields_from (c ∷ s) val digits fields =
    let val' = val * 10 + (c - b'0') in
    let digit = fields_from s val' (suc digits) fields in
    let dot = fields_from s 0 0 (fields ++ val ∷ []) in
    if is_digit c
    then (if digits == 1 && val == 0 || ltb 255 val' then none else digit)
    else if c == b'.'
    then (if digits == 0 || is_nil s || length fields == 3 then none else dot)
    else none

unfoldable pub parse_ipv4 : Text → Option Ip
unfolding fields_from
parse_ipv4 s = fields_from s 0 0 []

-- The value of a hexadecimal digit.
unfoldable pub hex_digit : ℕ → Option ℕ
hex_digit c =
    if is_digit c
    then some (c - b'0')
    else if leb b'a' c && leb c b'f'
    then some (c - b'a' + 10)
    else if leb b'A' c && leb c b'F'
    then some (c - b'A' + 10)
    else none

-- The digits of one group: how many, their value, and the text behind them; `none` for a fifth.
unfoldable pub hex_group : Text → ℕ → ℕ → Option (ℕ × ℕ × Text)
unfolding hex_digit
hex_group [] off acc = some (off, acc, [])
hex_group (c ∷ s) off acc = elim (hex_digit c) [
  | none ↦ some (off, acc, c ∷ s)
  | some d ↦ if ltb 3 off then none else hex_group s (suc off) (acc * 16 + d)
]

-- The bytes read so far, and the place of the ellipsis among them.
abbrev pub Progress : Type 0
Progress = Ip × Option ℕ

-- A trailing IPv4 address.
unfoldable pub trailing : Text → Ip → Option ℕ → Option Progress
unfolding parse_ipv4
trailing s ip none =
    if length ip == 12
    then elim (parse_ipv4 s) [ none ↦ none | some f ↦ some (ip ++ f, none) ]
    else none
trailing s ip (some e) =
    if leb (length ip + 4) 16
    then elim (parse_ipv4 s) [ none ↦ none | some f ↦ some (ip ++ f, some e) ]
    else none

-- What follows a group: the end, a dot, or a colon and more text.
pub data Follow : Type 0 where
  ends dotted bad : Follow
  colon : Text → Follow
  double : Text → Follow

unfoldable pub follow : Text → Follow
follow [] = ends
follow (c ∷ []) = if c == b'.' then dotted else bad
follow (c ∷ d ∷ s) =
    if c == b'.'
    then dotted
    else if c == b':'
    then (if d == b':' then double s else colon (d ∷ s))
    else bad

-- What the loop of `parseIPv6` does behind a group: `s` is the text from the group on, `ip'` the
-- bytes with the group, `go_on` the next round.
unfoldable pub after_group :
    (Text → Ip → Option ℕ → Option Progress) → Follow → Text → Ip → Option ℕ → Ip → Option Progress
unfolding trailing
after_group go_on ends s ip e ip' = some (ip', e)
after_group go_on bad s ip e ip' = none
after_group go_on dotted s ip e ip' = trailing s ip e
after_group go_on (colon more) s ip e ip' = go_on more ip' e
after_group go_on (double more) s ip (some _) ip' = none
after_group go_on (double more) s ip none ip' =
    if is_nil more then some (ip', some (length ip')) else go_on more ip' (some (length ip'))

-- The loop over the groups, of which `rounds` still fit.
unfoldable pub groups_from : ℕ → Text → Ip → Option ℕ → Option Progress
unfolding hex_group follow after_group
groups_from zero s ip e = if is_nil s then some (ip, e) else none
groups_from (suc rounds) s ip e = elim (hex_group s 0 0) [
  | none ↦ none
  | some (off, acc, rest) ↦
      if off == 0
      then none
      else after_group (groups_from rounds) (follow rest) s ip e (ip ++ acc / 256 ∷ acc % 256 ∷ [])
]

-- The ellipsis stands for the bytes that are missing, at least one group.
unfoldable pub expand : Progress → Option Ip
expand (ip, none) = if length ip == 16 then some ip else none
expand (ip, some e) =
    if ltb (length ip) 16
    then some (take e ip ++ (replicate (16 - length ip) 0 ++ drop e ip))
    else none

unfoldable pub finish : Option Progress → Option Ip
finish none = none
finish (some p) = expand p

unfoldable pub parse_ipv6 : Text → Option Ip
unfolding groups_from expand finish
parse_ipv6 [] = finish (groups_from 8 [] [] none)
parse_ipv6 (c ∷ []) = finish (groups_from 8 (c ∷ []) [] none)
parse_ipv6 (c ∷ d ∷ s) =
    if c == b':' && d == b':'
    then (if is_nil s then some (replicate 16 0) else finish (groups_from 8 s [] (some 0)))
    else finish (groups_from 8 (c ∷ d ∷ s) [] none)

pub data Notation : Type 0 where
  v4 v6 neither : Notation

-- `netip.ParseAddr` decides by the first of `.`, `:` and `%`.
unfoldable pub notation_of : Text → Notation
notation_of [] = neither
notation_of (c ∷ s) =
    if c == b'.' then v4 else if c == b':' then v6 else if c == b'%' then neither else notation_of s

pub data Family : Type 0 where
  ipv4 ipv6 : Family

-- `netip.ParseAddr`: the family of the notation, and the bytes.
unfoldable pub parse_addr : Text → Option (Family × Ip)
unfolding parse_ipv4 parse_ipv6 notation_of contains
parse_addr s = elim (notation_of s) [
  | v4 ↦ elim (parse_ipv4 s) [ none ↦ none | some ip ↦ some (ipv4, ip) ]
  | v6 ↦
      if contains s b'%'
      then none
      else elim (parse_ipv6 s) [ none ↦ none | some ip ↦ some (ipv6, ip) ]
  | neither ↦ none
]

-- `netip.Addr.As16`.
unfoldable pub as_16 : Option (Family × Ip) → Option Ip
as_16 none = none
as_16 (some (ipv4, ip)) = some (v4_in_v6_prefix ++ ip)
as_16 (some (ipv6, ip)) = some ip

-- `net.ParseIP`: sixteen bytes, or nil.
unfoldable pub parse_ip : Text → Option Ip
unfolding parse_addr as_16
parse_ip s = as_16 (parse_addr s)

-- The prefix length of a CIDR, digits only; large values are refused by the caller's bound.
prefix_from : Text → ℕ → Option ℕ
prefix_from [] n = some n
prefix_from (c ∷ s) n =
    if is_digit c && ltb n 0xffffff then prefix_from s (n * 10 + (c - b'0')) else none

unfoldable pub prefix_length : Text → Option ℕ
unfolding prefix_from
prefix_length [] = none
prefix_length (c ∷ s) = prefix_from (c ∷ s) 0

unfoldable pub before_slash : Text → Text
before_slash [] = []
before_slash (c ∷ s) = if c == b'/' then [] else c ∷ before_slash s

unfoldable pub after_slash : Text → Text
after_slash [] = []
after_slash (c ∷ s) = if c == b'/' then s else after_slash s

abbrev pub family_bytes : Family → ℕ
family_bytes ipv4 = 4
family_bytes ipv6 = 16

unfoldable pub network_of : Option (Family × Ip) → Option ℕ → Option IpNet
unfolding cidr_mask mask_ip
network_of none n = none
network_of (some (family, ip)) none = none
network_of (some (family, ip)) (some n) =
    let m = cidr_mask (family_bytes family) n in
    if leb n (8 * family_bytes family) then some (record { ip = mask_ip ip m; mask = m }) else none

-- `net.ParseCIDR`: the network; its address has the bytes of the family.
unfoldable pub parse_cidr : Text → Option IpNet
unfolding parse_addr prefix_length before_slash after_slash network_of
parse_cidr s = network_of (parse_addr (before_slash s)) (prefix_length (after_slash s))
