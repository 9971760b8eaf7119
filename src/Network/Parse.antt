-- ===== src/Network/Parse.antt =====
-- internal/network/parse.go. A slice that the code makes and fills is a list; an index loop that
-- runs down recurs on the index.
use Prim.Native.Nat.{bit_or, Ordering}
use helios_lb.Prelude.{
  ℕ, zero, suc, ◌+◌, ◌-◌, ◌%◌, ◌&&◌, List, [], ◌∷◌, none, some, ltb, ◌==◌, if◌then◌else◌, length,
  get_or, set, Result, ok, err, Text, trim_space, contains, split,
}
use helios_lb.Net.Addr.{Ip, IpNet, to4, to16, compare_bytes, mask_size}
use helios_lb.Net.Parse.{parse_ip, parse_cidr}

unfoldable pub normalize_ip : Ip → Ip
normalize_ip ip = elim (to4 ip) [ some v4 ↦ v4 | none ↦ to16 ip ]

unfoldable pub compare_ips : Ip → Ip → Ordering
compare_ips a b = compare_bytes (normalize_ip a) (normalize_ip b)

-- The loop of `IncrementIP` over the first `i` bytes, from the last of them down.
unfoldable pub increment_loop : ℕ → Ip → Ip
increment_loop zero next = next
increment_loop (suc i) next =
    let b = (get_or next i 0 + 1) % 256 in
    let rest = increment_loop i (set next i b) in if b == 0 then rest else set next i b

unfoldable pub increment_ip : Ip → Ip
unfolding increment_loop
increment_ip ip = increment_loop (length ip) ip

-- The loop of `DecrementIP`.
unfoldable pub decrement_loop : ℕ → Ip → Ip
decrement_loop zero prev = prev
decrement_loop (suc i) prev =
    let b = (get_or prev i 0 + 255) % 256 in
    let rest = decrement_loop i (set prev i b) in if b == 255 then rest else set prev i b

unfoldable pub decrement_ip : Ip → Ip
unfolding decrement_loop
decrement_ip ip = decrement_loop (length ip) ip

pub data RangeError : Type 0 where
  invalid_cidr invalid_format invalid_addresses : RangeError

-- `end[i] = start[i] | ^mask[i]`.
unfoldable pub last_ip : Ip → Ip → Ip
last_ip [] mask = []
last_ip (b ∷ start) [] = []
last_ip (b ∷ start) (m ∷ mask) = bit_or b (255 - m) ∷ last_ip start mask

-- The range of a network: without its first and last address for IPv4, if it has more than two.
unfoldable pub cidr_range : IpNet → Ip × Ip
unfolding last_ip
cidr_range net =
    let start = normalize_ip net.ip in
    let end = last_ip start net.mask in
    let (ones, bits) = mask_size net.mask in
    if bits == 32 && ltb 1 (bits - ones)
    then (increment_ip start, decrement_ip end)
    else (start, end)

unfoldable pub dashed_range : List Text → Result RangeError (Ip × Ip)
dashed_range [] = err invalid_format
dashed_range (p ∷ []) = err invalid_format
dashed_range (p ∷ q ∷ []) = elim (parse_ip (trim_space p)) [
  | none ↦ err invalid_addresses
  | some start ↦ elim (parse_ip (trim_space q)) [
    | none ↦ err invalid_addresses
    | some end ↦ ok (normalize_ip start, normalize_ip end)
  ]
]
dashed_range (p ∷ q ∷ r ∷ more) = err invalid_format

unfoldable pub parse_ip_range : Text → Result RangeError (Ip × Ip)
unfolding dashed_range cidr_range
parse_ip_range ip_range =
    let trimmed = trim_space ip_range in
    if contains trimmed b'/'
    then elim (parse_cidr trimmed) [ none ↦ err invalid_cidr | some net ↦ ok (cidr_range net) ]
    else elim (parse_ip trimmed) [
      | some ip ↦ ok (normalize_ip ip, normalize_ip ip)
      | none ↦ dashed_range (split trimmed b'-')
    ]
