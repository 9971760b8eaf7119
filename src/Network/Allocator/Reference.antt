-- ===== src/Network/Allocator/Reference.antt =====
-- The allocator (internal/network/ip_allocator.go) against a set of addresses: `AllocateIP` takes the
-- address of the lowest number that the set does not have, and an error is no address.
use helios_lb.Network.Value.{value}
use helios_lb.Network.Allocator.Free.{IsPool}
use helios_lb.Network.Allocator.Listed.{
  Addresses, listed, first_missing, returned, Tracks, scan-first_missing,
}
use helios_lb.Prelude.{
  ◌+◌, ◌<◌, ◌^◌, ◌⊎◌, length, All, ℕ, ◌≡◌, refl, subst, ◌∙◌, ap, inl, inr, true, false, List, [],
  ◌∷◌, Option, none, some, if◌then◌else◌, Text, text_eq, trim_space, arith, Result, ok, err,
}
use helios_lb.Net.Addr.{Ip, equal}
use helios_lb.Net.Parse.{parse_ip}
use helios_lb.Net.Print.{ip_string}
use helios_lb.Network.Parse.{RangeError, parse_ip_range}
use helios_lb.Network.Allocator.{
  IpAllocator, Allocation, is_used, mark_used, release_ip, allocate_between, allocate_ip,
  allocate_specific_ip, ip_allocatable,
}
use helios_lb.Network.Allocator.Scan.{is_used-mark_used, is_used-release_ip}
use helios_lb.Network.Allocator.Specific.{canonical, specific_cases}
use helios_lb.Network.Allocator.History.{
  MarksOrKeeps, allocate_ip-MarksOrKeeps, specific-MarksOrKeeps, Call, allocates,
  allocates_specific, marks, releases, step,
}

-- The address that a call gives, of a set and a limit on the length of the list.
unfoldable pub given : ℕ → Addresses → Call → Option Text
unfolding listed first_missing
given limit p (allocates r) = elim (parse_ip_range r) [
  | err e ↦ none
  | ok (start, end) ↦
      if equal start end
      then some (ip_string start)
      else first_missing p (listed limit (length start) (value start) (value end))
]
given limit p (allocates_specific r q) = elim (parse_ip (trim_space q)) [
  | none ↦ none
  | some target ↦
      if ip_allocatable q r
      then (if p (canonical target) then none else some (canonical target))
      else none
]
given limit p (marks s) = none
given limit p (releases s) = none

unfoldable pub with_one : Addresses → Text → Addresses
with_one p s t = if text_eq s t then true else p t

unfoldable pub without_one : Addresses → Text → Addresses
without_one p s t = if text_eq s t then false else p t

unfoldable pub with_given : Addresses → Option Text → Addresses
unfolding with_one
with_given p none = p
with_given p (some s) = with_one p s

-- The set after a call.
unfoldable pub next_set : ℕ → Addresses → Call → Addresses
unfolding given with_given with_one without_one
next_set limit p (allocates r) = with_given p (given limit p (allocates r))
next_set limit p (allocates_specific r q) = with_given p (given limit p (allocates_specific r q))
next_set limit p (marks s) = with_one p s
next_set limit p (releases s) = without_one p s

unfoldable pub given_all : ℕ → Addresses → List Call → List (Option Text)
unfolding next_set given
given_all limit p [] = []
given_all limit p (c ∷ cs) = given limit p c ∷ given_all limit (next_set limit p c) cs

unfoldable pub answer : IpAllocator → Call → Option Text
unfolding returned
answer a (allocates r) = returned (allocate_ip a r).0
answer a (allocates_specific r q) = returned (allocate_specific_ip a r q).0
answer a (marks s) = none
answer a (releases s) = none

unfoldable pub answers : IpAllocator → List Call → List (Option Text)
unfolding answer
answers a [] = []
answers a (c ∷ cs) = answer a c ∷ answers (step a c) cs

-- A call of `AllocateIP` is on a range of one address, or on a pool, or on a text that is no range.
abbrev pub OfOneOrPool : Call → Type 0
OfOneOrPool (allocates r) =
    (start end : Ip)
    → parse_ip_range r ≡ ok (start, end)
    → (equal start end ≡ true) ⊎ IsPool start end
OfOneOrPool (allocates_specific r q) = Unit {0}
OfOneOrPool (marks s) = Unit {0}
OfOneOrPool (releases s) = Unit {0}

between-given :
    (a : IpAllocator) (p : Addresses) (start end : Ip)
    → (equal start end ≡ true) ⊎ IsPool start end
    → Tracks a p
    → returned (allocate_between a start end).0 ≡ (
        if equal start end
        then some (ip_string start)
        else first_missing p (listed a.max_scan (length start) (value start) (value end)))
unfolding allocate_between returned
between-given a p start end (inl s) h = rw (allocate_between, s) refl
between-given a p start end (inr pool) h =
    let top : value end + 1 < 256 ^ length end = rw pool.family at pool.below_top in
    ground (
      arith,
      scan-first_missing a.max_scan start end a p pool.start_bytes pool.end_bytes pool.family top h,
    )

allocates-given :
    (a : IpAllocator) (p : Addresses) (r : Text) (m : Result RangeError (Ip × Ip))
    → parse_ip_range r ≡ m
    → OfOneOrPool (allocates r)
    → Tracks a p
    → returned (allocate_ip a r).0 ≡ given a.max_scan p (allocates r)
unfolding allocate_ip given returned
allocates-given a p r (err e) q f h = rw (allocate_ip, given, q) refl
allocates-given a p r (ok (start, end)) q f h =
    rw (allocate_ip, given, q) (between-given a p start end (f start end q) h)

specific-given :
    (a : IpAllocator) (p : Addresses) (r q : Text)
    → Tracks a p
    → returned (allocate_specific_ip a r q).0 ≡ given a.max_scan p (allocates_specific r q)
unfolding given returned
specific-given a p r q h = elim (specific_cases a r q) [
  | inl (n, e) ↦ rw (e, given, n) refl
  | inr (target, n, inl (b, e)) ↦ rw (e, given, n, b) refl
  | inr (target, n, inr (inl (b, u, e))) ↦
      rw (e, given, n, b) (ground (arith, h (canonical target)))
  | inr (target, n, inr (inr (b, u, e))) ↦
      rw (e, given, n, b) (ground (arith, h (canonical target)))
]

marked-Tracks :
    (a : IpAllocator) (p : Addresses) (m : Allocation)
    → MarksOrKeeps a m
    → Tracks a p
    → Tracks m.1 (with_given p (returned m.0))
unfolding with_given with_one returned
marked-Tracks a p (ok s, b) e h =
    λ t. ap (λ x. is_used x t) e ∙ ground (arith, is_used-mark_used a s t, h t)
marked-Tracks a p (err x, b) e h = λ t. ap (λ x. is_used x t) e ∙ h t

marked-max_scan : (a : IpAllocator) (m : Allocation) → MarksOrKeeps a m → m.1.max_scan ≡ a.max_scan
unfolding mark_used
marked-max_scan a (ok s, b) e = ap (λ x. x.max_scan) e
marked-max_scan a (err x, b) e = ap (λ x. x.max_scan) e

step-max_scan : (a : IpAllocator) (c : Call) → (step a c).max_scan ≡ a.max_scan
unfolding step mark_used release_ip
step-max_scan a (allocates r) = marked-max_scan a (allocate_ip a r) (allocate_ip-MarksOrKeeps a r)
step-max_scan a (allocates_specific r q) =
    marked-max_scan a (allocate_specific_ip a r q) (specific-MarksOrKeeps a r q)
step-max_scan a (marks s) = refl
step-max_scan a (releases s) = refl

answer-given :
    (a : IpAllocator) (p : Addresses) (c : Call)
    → OfOneOrPool c
    → Tracks a p
    → answer a c ≡ given a.max_scan p c
unfolding answer
answer-given a p (allocates r) f h = allocates-given a p r (parse_ip_range r) refl f h
answer-given a p (allocates_specific r q) f h = specific-given a p r q h
answer-given a p (marks s) f h = unfold given in refl
answer-given a p (releases s) f h = unfold given in refl

step-Tracks :
    (a : IpAllocator) (p : Addresses) (c : Call)
    → OfOneOrPool c
    → Tracks a p
    → Tracks (step a c) (next_set a.max_scan p c)
unfolding step next_set
step-Tracks a p (allocates r) f h =
    subst (λ o. Tracks (allocate_ip a r).1 (with_given p o)) (answer-given a p (allocates r) f h)
      (unfold answer in marked-Tracks a p (allocate_ip a r) (allocate_ip-MarksOrKeeps a r) h)
step-Tracks a p (allocates_specific r q) f h =
    subst (λ o. Tracks (allocate_specific_ip a r q).1 (with_given p o))
      (answer-given a p (allocates_specific r q) f h)
      (unfold answer in
        marked-Tracks a p (allocate_specific_ip a r q) (specific-MarksOrKeeps a r q) h)
step-Tracks a p (marks s) f h = λ t. unfold with_one in ground (arith, is_used-mark_used a s t, h t)
step-Tracks a p (releases s) f h =
    λ t. unfold without_one in ground (arith, is_used-release_ip a s t, h t)

-- Over any sequence of calls, an allocator that has the addresses of a set gives the same answers as
-- the set, where each range that is allocated from is of one address, or of several of one family and
-- ends before the last address of the family: the address of the lowest number that the set lacks among
-- the first `max_scan` numbers from the start of the range to its end, the requested address if it can
-- be allocated and the set lacks it, or none; where a range of one address always gives that address.
pub answers-given_all :
    (a : IpAllocator) (p : Addresses) (cs : List Call)
    → All OfOneOrPool cs
    → Tracks a p
    → answers a cs ≡ given_all a.max_scan p cs
unfolding answers given_all
answers-given_all a p [] f h = refl
answers-given_all a p (c ∷ cs) (f, fs) h =
    let rest =
      answers-given_all (step a c) (next_set a.max_scan p c) cs fs (step-Tracks a p c f h) in
    let later = rest ∙ ap (λ n. given_all n (next_set a.max_scan p c) cs) (step-max_scan a c) in
    rw (answer-given a p c f h, later) refl
