-- ===== src/Network/Allocator/Listed.antt =====
-- The addresses of a range by their numbers, and the scan of `AllocateIP`
-- (internal/network/ip_allocator.go) over them.
use Prim.Native.Nat.{min}
use helios_lb.Network.Value.{value, to_bytes, to_bytes-value}
use helios_lb.Network.Increment.{length-increment_ip, increment_ip-IsBytes, increment_ip_below}
use helios_lb.Network.Allocator.Steps.{not_above-value}
use helios_lb.Prelude.{
  ◌+◌, ◌-◌, ◌≤◌, ◌<◌, ◌^◌, leb, length, Bool-cases, ℕ, zero, suc, ◌≡◌, refl, ◌∙◌, ap, inl, inr,
  Bool, List, [], ◌∷◌, Option, none, some, if◌then◌else◌, Text, arith, Result, ok, err,
}
use helios_lb.Net.Addr.{Ip, IsBytes}
use helios_lb.Net.Print.{ip_string}
use helios_lb.Network.Parse.{increment_ip}
use helios_lb.Network.Allocator.{IpAllocator, AllocError, is_used, scan}

abbrev pub Addresses : Type 0
Addresses = Text → Bool

-- `n` addresses of `k` bytes with consecutive numbers, from a number on.
unfoldable pub consecutive : ℕ → ℕ → ℕ → List Text
consecutive zero k v = []
consecutive (suc n) k v = ip_string (to_bytes k v) ∷ consecutive n k (v + 1)

-- The addresses of the numbers from the first to the last, `n` at most.
unfoldable pub listed : ℕ → ℕ → ℕ → ℕ → List Text
unfolding consecutive
listed n k v last = consecutive (min n (last + 1 - v)) k v

unfoldable pub first_missing : Addresses → List Text → Option Text
first_missing p [] = none
first_missing p (s ∷ more) = let later = first_missing p more in if p s then later else some s

-- The address that a call on the allocator returns.
unfoldable pub returned : Result AllocError Text → Option Text
returned (ok s) = some s
returned (err e) = none

-- The allocator has the addresses of the set.
abbrev pub Tracks : IpAllocator → Addresses → Type 0
Tracks a p = (t : Text) → is_used a t ≡ p t

listed_within :
    (n k v last : ℕ)
    → v ≤ last
    → listed (suc n) k v last ≡ ip_string (to_bytes k v) ∷ listed n k (v + 1) last
unfolding listed
listed_within n k v last l =
    let e : min (suc n) (last + 1 - v) ≡ suc (min n (last + 1 - (v + 1))) = omega arith in
    ap (λ m. consecutive m k v) e

listed_beyond : (n k v last : ℕ) → last < v → listed n k v last ≡ []
unfolding listed
listed_beyond n k v last l =
    let e : min n (last + 1 - v) ≡ 0 = omega arith in ap (λ m. consecutive m k v) e

listed_zero : (k v last : ℕ) → listed 0 k v last ≡ []
unfolding listed
listed_zero k v last =
    let e : min 0 (last + 1 - v) ≡ 0 = omega arith in ap (λ m. consecutive m k v) e

-- What the scan finds from an address on, in a range that ends before the last address of the family.
pub scan-first_missing :
    (left : ℕ) (ip end : Ip) (a : IpAllocator) (p : Addresses)
    → IsBytes ip
    → IsBytes end
    → length ip ≡ length end
    → value end + 1 < 256 ^ length end
    → Tracks a p
    → returned (scan left ip end a).0
      ≡ first_missing p (listed left (length ip) (value ip) (value end))
unfolding scan first_missing returned
scan-first_missing zero ip end a p hi he l t h =
    rw (listed_zero (length ip) (value ip) (value end)) (ground arith)
scan-first_missing (suc left) ip end a p hi he l t h =
    elim (Bool-cases (leb (value ip) (value end))) [
      | inl q ↦
          let below : value ip + 1 < 256 ^ length ip = rw l (ground arith) in
          let later =
            scan-first_missing left (increment_ip ip) end a p (increment_ip-IsBytes ip hi) he
              (length-increment_ip ip ∙ l) t h in
          let next : returned (scan left (increment_ip ip) end a).0
              ≡ first_missing p (listed left (length ip) (value ip + 1) (value end)) =
            rw (length-increment_ip ip, increment_ip_below ip hi below) at later in
          rw
            (
              scan,
              not_above-value ip end l hi he,
              q,
              h (ip_string ip),
              listed_within left (length ip) (value ip) (value end) (ground arith),
              to_bytes-value ip hi,
            )
            (ground (arith, next))
      | inr q ↦
          rw
            (
              scan,
              not_above-value ip end l hi he,
              q,
              listed_beyond (suc left) (length ip) (value ip) (value end) (ground arith),
            )
            refl
    ]
