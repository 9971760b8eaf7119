-- ===== src/Network/Allocator.antt =====
-- internal/network/ip_allocator.go and network.go. A method holds the mutex from its first use of
-- the map to its end, so it is one step on the allocator; an error is its case, with no message.
pub mod Scan
pub mod Steps
pub mod Specific
pub mod Free
pub mod History
pub mod Wrap
pub mod Families
pub mod Listed
pub mod Reference
pub mod Handout
use helios_lb.Prelude.{
  ℕ, zero, suc, ◌≡◌, Bool, true, false, ◌&&◌, [], ◌∷◌, List, Option, none, some, if◌then◌else◌,
  Result, ok, err, Text, trim_space, contains, Dict, lookup, insert, delete,
}
use helios_lb.Net.Addr.{Ip, equal, compare_bytes, not_above, not_below, net_contains}
use helios_lb.Net.Parse.{parse_ip, parse_cidr}
use helios_lb.Net.Print.{ip_string}
use helios_lb.Network.Parse.{RangeError, parse_ip_range, normalize_ip, increment_ip}

pub record IpAllocator : Type 0 where
  pub used : Dict Bool
  pub max_scan : ℕ

-- `1 << 16`.
abbrev pub default_max_scan : ℕ
default_max_scan = 65536

unfoldable pub new_ip_allocator : IpAllocator
new_ip_allocator = record { used = []; max_scan = default_max_scan }

pub data AllocError : Type 0 where
  invalid_range : RangeError → AllocError
  scan_limit exhausted not_an_ip not_allocatable already_allocated : AllocError

-- `a.used[ip]`; a missing key reads false.
unfoldable pub is_used : IpAllocator → Text → Bool
is_used a ip = elim (lookup ip a.used) [ none ↦ false | some b ↦ b ]

unfoldable pub mark_used : IpAllocator → Text → IpAllocator
mark_used a ip = record a { used = insert ip true a.used }

unfoldable pub release_ip : IpAllocator → Text → IpAllocator
release_ip a ip = record a { used = delete ip a.used }

abbrev pub Allocation : Type 0
Allocation = Result AllocError Text × IpAllocator

-- The loop of `AllocateIP` from `ip` on, where `left` is `maxScan - scanned`.
unfoldable pub scan : ℕ → Ip → Ip → IpAllocator → Allocation
scan zero ip end a =
    if not_above (compare_bytes ip end) then (err scan_limit, a) else (err exhausted, a)
scan (suc left) ip end a =
    let next = scan left (increment_ip ip) end a in
    if not_above (compare_bytes ip end)
    then (if is_used a (ip_string ip)
        then next
        else (ok (ip_string ip), mark_used a (ip_string ip)))
    else (err exhausted, a)

-- What `AllocateIP` does with a range that it has parsed.
unfoldable pub allocate_between : IpAllocator → Ip → Ip → Allocation
unfolding scan
allocate_between a start end =
    if equal start end
    then (ok (ip_string start), mark_used a (ip_string start))
    else scan a.max_scan start end a

unfoldable pub allocate_ip : IpAllocator → Text → Allocation
unfolding allocate_between
allocate_ip a ip_range = elim (parse_ip_range ip_range) [
  | err e ↦ (err (invalid_range e), a)
  | ok (start, end) ↦ allocate_between a start end
]

-- `bytes.Compare` on both sides, as `IPAllocatable` and `IPInRange` test it.
unfoldable pub between : Ip → Ip → Ip → Bool
between start end ip = not_below (compare_bytes ip start) && not_above (compare_bytes ip end)

unfoldable pub ip_allocatable : Text → Text → Bool
unfolding between
ip_allocatable ip ip_range = elim (parse_ip (trim_space ip)) [
  | none ↦ false
  | some target ↦ elim (parse_ip_range ip_range) [
    | err e ↦ false
    | ok (start, end) ↦ between start end (normalize_ip target)
  ]
]

unfoldable pub ip_in_range : Text → Text → Bool
unfolding between
ip_in_range ip ip_range = elim (parse_ip (trim_space ip)) [
  | none ↦ false
  | some target ↦
      if contains ip_range b'/'
      then elim (parse_cidr (trim_space ip_range)) [
        | none ↦ false
        | some net ↦ net_contains net target
      ]
      else elim (parse_ip_range ip_range) [
        | err e ↦ false
        | ok (start, end) ↦ between start end (normalize_ip target)
      ]
]

unfoldable pub allocate_specific_ip : IpAllocator → Text → Text → Allocation
allocate_specific_ip a ip_range requested = elim (parse_ip (trim_space requested)) [
  | none ↦ (err not_an_ip, a)
  | some target ↦
      let ip = ip_string (normalize_ip target) in
      if ip_allocatable requested ip_range
      then (if is_used a ip then (err already_allocated, a) else (ok ip, mark_used a ip))
      else (err not_allocatable, a)
]
