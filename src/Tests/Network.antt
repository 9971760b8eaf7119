-- ===== src/Tests/Network.antt =====
-- Instances of the theorems about internal/network.
use helios_lb.Prelude.{
  ℕ, ◌+◌, ◌%◌, ◌^◌, ◌≡◌, ◌≢◌, refl, Bool, true, false, List, [], ◌∷◌, some, if◌then◌else◌, ◌==◌,
  length, arith, Text, codes, ◌<◌, ◌⊎◌, inl, inr, sym, subst, ◌↔◌, trim_space, ok, err, ◌++◌, ◌≤◌,
  ap, text_eq, text_eq_refl, ok-injective, ◌∙◌,
}
use helios_lb.Network.Allocator.Listed.{Tracks}
use helios_lb.Network.Allocator.Reference.{OfOneOrPool, given_all, answers, answers-given_all}
use helios_lb.Network.Allocator.Handout.{allocate_ip-release-specific}
use helios_lb.Network.Allocator.Families.{other_family_granted}
use helios_lb.Net.Addr.{compare_bytes, Ip, IsBytes, v4_in_v6_prefix}
use helios_lb.Net.Parse.{parse_ip}
use helios_lb.Net.Print.{ip_string}
use helios_lb.Network.Parse.{parse_ip_range, normalize_ip, increment_ip, decrement_ip}
use helios_lb.Network.Value.{value, value-injective}
use helios_lb.Network.Bounds.{AreEnds, parse_ip_range-AreEnds}
use helios_lb.Network.Increment.{increment_ip-value}
use helios_lb.Network.Allocator.{
  ip_allocatable, IpAllocator, new_ip_allocator, mark_used, release_ip, is_used, allocate_ip,
  allocate_specific_ip,
}
use helios_lb.Network.Allocator.Specific.{canonical, allocate_specific_ip_iff}
use helios_lb.Network.Allocator.Free.{IsPool, InRange, PoolOutcome, allocate_ip-PoolOutcome}
use helios_lb.Network.Allocator.History.{
  releases, Call, allocates, allocates_specific, marks, run, step, Allocates, no_double_allocation,
}
use helios_lb.Network.Allocator.Wrap.{lowest, allocate_ip_wraps}

abbrev pub range : Text
range = codes "10.0.0.254-10.0.1.3"

abbrev pub first : Ip
first = 10 ∷ 0 ∷ 0 ∷ 254 ∷ []

abbrev pub last : Ip
last = 10 ∷ 0 ∷ 1 ∷ 3 ∷ []

pub range_parses : parse_ip_range range ≡ ok (first, last)
unfolding parse_ip_range normalize_ip parse_ip trim_space helios_lb.Prelude.split
    helios_lb.Net.Addr.to4
range_parses = refl

abbrev carry : Ip
carry = 10 ∷ 0 ∷ 0 ∷ 255 ∷ []

carry-IsBytes : IsBytes carry
carry-IsBytes = (omega arith, (omega arith, (omega arith, (omega arith, tt))))

increment_example : value (increment_ip carry) ≡ (value carry + 1) % 256 ^ length carry
increment_example = increment_ip-value carry carry-IsBytes

ends_example : AreEnds (first, last)
ends_example = parse_ip_range-AreEnds range (first, last) range_parses

pub range-IsPool : IsPool first last
unfolding value
range-IsPool = record {
  start_bytes = (omega arith, (omega arith, (omega arith, (omega arith, tt))));
  end_bytes = (omega arith, (omega arith, (omega arith, (omega arith, tt))));
  family = refl;
  several = omega arith;
  below_top = omega arith;
}

abbrev one_used : IpAllocator
one_used = mark_used new_ip_allocator (codes "10.0.0.254")

pool_example : PoolOutcome one_used first last (allocate_ip one_used range)
unfolding value
pool_example =
    allocate_ip-PoolOutcome one_used range first last range_parses refl (omega arith) (omega arith)

abbrev wanted : Text
wanted = codes "10.0.0.255"

wanted_parses : parse_ip (trim_space wanted) ≡ some (v4_in_v6_prefix ++ carry)
unfolding parse_ip trim_space
wanted_parses = refl

normal_wanted : normalize_ip (v4_in_v6_prefix ++ carry) ≡ carry
unfolding normalize_ip helios_lb.Net.Addr.to4
normal_wanted = refl

specific_example :
    (allocate_specific_ip one_used range wanted ≡ (
      ok (canonical (v4_in_v6_prefix ++ carry)),
      mark_used one_used (canonical (v4_in_v6_prefix ++ carry)),
    ))
    ↔ ((value first ≤ value (normalize_ip (v4_in_v6_prefix ++ carry)))
        × (value (normalize_ip (v4_in_v6_prefix ++ carry)) ≤ value last)
        × (is_used one_used (canonical (v4_in_v6_prefix ++ carry)) ≡ false))
specific_example =
    allocate_specific_ip_iff one_used range wanted (v4_in_v6_prefix ++ carry) first last
      wanted_parses range_parses (rw normal_wanted refl) refl

specific_granted :
    allocate_specific_ip one_used range wanted ≡ (ok wanted, mark_used one_used wanted)
unfolding parse_ip trim_space allocate_specific_ip helios_lb.Network.Allocator.ip_allocatable
    parse_ip_range helios_lb.Prelude.split helios_lb.Net.Addr.compare_bytes normalize_ip
    helios_lb.Net.Addr.to4 is_used helios_lb.Prelude.lookup mark_used helios_lb.Prelude.insert
    new_ip_allocator ip_string
specific_granted = refl

no_double_example :
    ¬ Allocates
      (run (step one_used (allocates_specific range wanted)) (marks (codes "10.0.1.1") ∷ []))
      (allocates range)
      wanted
no_double_example =
    no_double_allocation one_used (allocates_specific range wanted) (marks (codes "10.0.1.1") ∷ [])
      (allocates range) wanted (ap (λ m. m.0) specific_granted) (λ e. cc, tt)
      (first, last, range_parses, range-IsPool)

abbrev top_range : Text
top_range = codes "255.255.255.254-255.255.255.255"

abbrev top_start : Ip
top_start = 255 ∷ 255 ∷ 255 ∷ 254 ∷ []

abbrev top_end : Ip
top_end = 255 ∷ 255 ∷ 255 ∷ 255 ∷ []

top_range_parses : parse_ip_range top_range ≡ ok (top_start, top_end)
unfolding parse_ip_range normalize_ip parse_ip trim_space helios_lb.Prelude.split
    helios_lb.Net.Addr.to4
top_range_parses = refl

abbrev full : IpAllocator
full = mark_used (mark_used new_ip_allocator (codes "255.255.255.254")) (codes "255.255.255.255")

top_start-IsBytes : IsBytes top_start
top_start-IsBytes = (omega arith, (omega arith, (omega arith, (omega arith, tt))))

top_end-IsBytes : IsBytes top_end
top_end-IsBytes = (omega arith, (omega arith, (omega arith, (omega arith, tt))))

start_used : is_used full (ip_string top_start) ≡ true
unfolding is_used ip_string mark_used new_ip_allocator helios_lb.Prelude.insert
    helios_lb.Prelude.lookup
start_used = refl

end_used : is_used full (ip_string top_end) ≡ true
unfolding is_used ip_string mark_used new_ip_allocator helios_lb.Prelude.insert
    helios_lb.Prelude.lookup
end_used = refl

one_of_two : (y : Ip) → InRange top_start top_end y → (top_start ≡ y) ⊎ (top_end ≡ y)
unfolding value
one_of_two y r =
    let within : (value y ≡ 4294967294) ⊎ (value y ≡ 4294967295) =
      ground (arith, r.above, r.below) in
    elim within [
      | inl e ↦ inl (value-injective top_start y (sym r.family) top_start-IsBytes r.bytes (sym e))
      | inr e ↦ inr (value-injective top_end y (sym r.family) top_end-IsBytes r.bytes (sym e))
    ]

all_used : (y : Ip) → InRange top_start top_end y → is_used full (ip_string y) ≡ true
all_used y r = elim (one_of_two y r) [
  | inl e ↦ subst (λ x. is_used full (ip_string x) ≡ true) e start_used
  | inr e ↦ subst (λ x. is_used full (ip_string x) ≡ true) e end_used
]

wrap_example :
    (allocate_ip full top_range
      ≡ (ok (ip_string (lowest top_start)), mark_used full (ip_string (lowest top_start))))
    × (¬ InRange top_start top_end (lowest top_start))
unfolding value is_used ip_string mark_used new_ip_allocator helios_lb.Prelude.insert
    helios_lb.Prelude.lookup
wrap_example =
    allocate_ip_wraps full top_range top_start top_end top_range_parses refl (omega arith)
      (omega arith) (omega arith) all_used refl (omega arith)

-- The mask of sixteen bytes is read against the four bytes of the address.
mapped_network_collapses :
    parse_ip_range (codes "::ffff:10.0.0.0/120") ≡ ok (10 ∷ 0 ∷ 0 ∷ 0 ∷ [], 10 ∷ 0 ∷ 0 ∷ 0 ∷ [])
unfolding parse_ip_range helios_lb.Prelude.contains trim_space helios_lb.Net.Parse.parse_cidr
    helios_lb.Net.Addr.mask_size normalize_ip helios_lb.Net.Addr.to4
mapped_network_collapses = refl

network_without_ends :
    parse_ip_range (codes "192.168.1.0/24") ≡ ok (192 ∷ 168 ∷ 1 ∷ 1 ∷ [], 192 ∷ 168 ∷ 1 ∷ 254 ∷ [])
unfolding parse_ip_range helios_lb.Prelude.contains trim_space helios_lb.Net.Parse.parse_cidr
    helios_lb.Net.Addr.mask_size increment_ip decrement_ip normalize_ip helios_lb.Net.Addr.to4
network_without_ends = refl

abbrev public_range : Text
public_range = codes "38.1.0.1-38.1.0.9"

-- 2601:5::1.
abbrev sixteen : Ip
sixteen = 38 ∷ 1 ∷ 0 ∷ 5 ∷ 0 ∷ 0 ∷ 0 ∷ 0 ∷ 0 ∷ 0 ∷ 0 ∷ 0 ∷ 0 ∷ 0 ∷ 0 ∷ 1 ∷ []

public_range_parses : parse_ip_range public_range ≡ ok (38 ∷ 1 ∷ 0 ∷ 1 ∷ [], 38 ∷ 1 ∷ 0 ∷ 9 ∷ [])
unfolding parse_ip_range normalize_ip parse_ip trim_space helios_lb.Prelude.split
    helios_lb.Net.Addr.to4
public_range_parses = refl

sixteen_parses : parse_ip (trim_space (codes "2601:5::1")) ≡ some sixteen
unfolding parse_ip trim_space
sixteen_parses = refl

family_example :
    allocate_specific_ip new_ip_allocator public_range (codes "2601:5::1")
    ≡ (ok (canonical sixteen), mark_used new_ip_allocator (canonical sixteen))
unfolding normalize_ip helios_lb.Net.Addr.to4 compare_bytes is_used new_ip_allocator
    helios_lb.Prelude.lookup helios_lb.Net.Addr.to16
family_example =
    other_family_granted new_ip_allocator public_range (codes "2601:5::1") (38 ∷ 1 ∷ 0 ∷ 1 ∷ [])
      (38 ∷ 1 ∷ 0 ∷ 9 ∷ []) (38 ∷ 1 ∷ 0 ∷ 5 ∷ [])
      (0 ∷ 0 ∷ 0 ∷ 0 ∷ 0 ∷ 0 ∷ 0 ∷ 0 ∷ 0 ∷ 0 ∷ 0 ∷ 1 ∷ []) sixteen public_range_parses
      sixteen_parses refl refl refl refl refl refl

new_ip_allocator-Tracks : Tracks new_ip_allocator (λ t. false)
unfolding is_used new_ip_allocator helios_lb.Prelude.lookup
new_ip_allocator-Tracks t = refl

abbrev calls : List Call
calls =
    allocates range
    ∷ allocates_specific range (codes "10.0.0.255")
    ∷ allocates range
    ∷ marks range
    ∷ releases (codes "10.0.0.254")
    ∷ allocates range
    ∷ []

range-OfOneOrPool : OfOneOrPool (allocates range)
range-OfOneOrPool start end q = inr (
    subst (λ (m : Ip × Ip). IsPool m.0 m.1)
      (ok-injective (first, last) (start, end) (sym range_parses ∙ q)) range-IsPool)

answers_example :
    answers new_ip_allocator calls ≡ given_all new_ip_allocator.max_scan (λ t. false) calls
answers_example =
    answers-given_all new_ip_allocator (λ t. false) calls
      (range-OfOneOrPool, (tt, (range-OfOneOrPool, (tt, (tt, (range-OfOneOrPool, tt))))))
      new_ip_allocator-Tracks

-- A new allocator with a short scan, and what it is after one call.
abbrev short : IpAllocator
short = record { used = []; max_scan = 8 }

short_allocates :
    allocate_ip short range ≡ (ok (codes "10.0.0.254"), mark_used short (codes "10.0.0.254"))
unfolding allocate_ip parse_ip_range normalize_ip parse_ip trim_space helios_lb.Prelude.split
    helios_lb.Net.Addr.to4 helios_lb.Network.Allocator.allocate_between helios_lb.Net.Addr.equal
    helios_lb.Network.Allocator.scan compare_bytes is_used ip_string helios_lb.Prelude.lookup
short_allocates = refl

handout_example :
    (ip_allocatable (codes "10.0.0.254") range ≡ true)
    × (allocate_specific_ip
          (release_ip (mark_used short (codes "10.0.0.254")) (codes "10.0.0.254"))
          range
          (codes "10.0.0.254")
        ≡ (
          ok (codes "10.0.0.254"),
          mark_used
              (release_ip (mark_used short (codes "10.0.0.254")) (codes "10.0.0.254"))
              (codes "10.0.0.254"),
        ))
unfolding value
handout_example =
    allocate_ip-release-specific short (mark_used short (codes "10.0.0.254")) range
      (codes "10.0.0.254") first last range_parses refl refl (omega arith) (omega arith)
      short_allocates
