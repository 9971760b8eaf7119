-- ===== src/Network/Allocator/Scan.antt =====
-- The scan of `AllocateIP` (internal/network/ip_allocator.go) finds the first free address.
use helios_lb.Prelude.{
  ℕ, zero, suc, ◌<◌, ◌≤◌, ◌≡◌, ◌⊎◌, inl, inr, true, false, if◌then◌else◌, ok, err, Text, arith,
  Bool-cases, text_eq, lookup-insert, lookup-delete,
}
use helios_lb.Net.Addr.{Ip, compare_bytes, not_above}
use helios_lb.Net.Print.{ip_string}
use helios_lb.Network.Parse.{increment_ip}
use helios_lb.Network.Allocator.{
  IpAllocator, Allocation, is_used, mark_used, release_ip, scan, scan_limit, exhausted,
}

-- A mark makes its address used, and no other.
pub is_used-mark_used :
    (a : IpAllocator) (s t : Text)
    → is_used (mark_used a s) t ≡ (if text_eq s t then true else is_used a t)
unfolding is_used mark_used
is_used-mark_used a s t = ground (arith, lookup-insert s t true a.used)

-- A release makes its address free, and changes no other.
pub is_used-release_ip :
    (a : IpAllocator) (s t : Text)
    → is_used (release_ip a s) t ≡ (if text_eq s t then false else is_used a t)
unfolding is_used release_ip
is_used-release_ip a s t = ground (arith, lookup-delete s t a.used)

-- The address after `k` increments.
unfoldable pub advance : ℕ → Ip → Ip
advance zero ip = ip
advance (suc k) ip = advance k (increment_ip ip)

abbrev pub Reaches : Ip → Ip → Type 0
Reaches ip end = not_above (compare_bytes ip end) ≡ true

-- The first `k` addresses lie before the end and are used.
abbrev pub AllUsed : IpAllocator → Ip → Ip → ℕ → Type 0
AllUsed a ip end k =
    (j : ℕ) → j < k → Reaches (advance j ip) end × (is_used a (ip_string (advance j ip)) ≡ true)

-- The first free address is `k` steps on.
abbrev pub FirstFree : IpAllocator → Ip → Ip → ℕ → Type 0
FirstFree a ip end k =
    AllUsed a ip end k × Reaches (advance k ip) end × (is_used a (ip_string (advance k ip)) ≡ false)

AllUsed-suc :
    (a : IpAllocator) (ip end : Ip) (k : ℕ)
    → Reaches ip end
    → is_used a (ip_string ip) ≡ true
    → AllUsed a (increment_ip ip) end k
    → AllUsed a ip end (suc k)
unfolding advance
AllUsed-suc a ip end k r u h zero l = (r, u)
AllUsed-suc a ip end k r u h (suc j) l = h j (omega arith)

-- What a scan can return: the first free address, marked; that no address up to the end is free; or
-- that the limit was met among used addresses.
abbrev pub ScanOutcome : ℕ → Ip → Ip → IpAllocator → Allocation → Type 0
ScanOutcome left ip end a r =
    ((k : ℕ) × (k < left)
      × FirstFree a ip end k
      × (r ≡ (ok (ip_string (advance k ip)), mark_used a (ip_string (advance k ip)))))
    ⊎ (((k : ℕ) × (k ≤ left)
          × AllUsed a ip end k
          × (not_above (compare_bytes (advance k ip) end) ≡ false)
          × (r ≡ (err exhausted, a)))
        ⊎ (AllUsed a ip end left × Reaches (advance left ip) end × (r ≡ (err scan_limit, a))))

-- A round over a used address.
ScanOutcome-suc :
    (left : ℕ) (ip end : Ip) (a : IpAllocator) (r : Allocation)
    → Reaches ip end
    → is_used a (ip_string ip) ≡ true
    → ScanOutcome left (increment_ip ip) end a r
    → ScanOutcome (suc left) ip end a r
unfolding advance
ScanOutcome-suc left ip end a r b u (inl (k, l, (h, e, f), o)) =
    inl (suc k, omega arith, (AllUsed-suc a ip end k b u h, e, f), o)
ScanOutcome-suc left ip end a r b u (inr (inl (k, l, h, e, o))) =
    inr (inl (suc k, omega arith, AllUsed-suc a ip end k b u h, e, o))
ScanOutcome-suc left ip end a r b u (inr (inr (h, e, o))) =
    inr (inr (AllUsed-suc a ip end left b u h, e, o))

pub scan-ScanOutcome :
    (left : ℕ) (ip end : Ip) (a : IpAllocator) → ScanOutcome left ip end a (scan left ip end a)
unfolding scan advance
scan-ScanOutcome zero ip end a = elim (Bool-cases (not_above (compare_bytes ip end))) [
  | inl r ↦ inr (inr (λ j l. elim l [ ], r, rw r))
  | inr r ↦ inr (inl (0, omega arith, λ j l. elim l [ ], r, rw r))
]
scan-ScanOutcome (suc left) ip end a = elim (Bool-cases (not_above (compare_bytes ip end))) [
  | inr r ↦ inr (inl (0, omega arith, λ j l. elim l [ ], r, rw r))
  | inl r ↦ elim (Bool-cases (is_used a (ip_string ip))) [
    | inr u ↦ inl (0, omega arith, (λ j l. elim l [ ], r, u), rw (r, u))
    | inl u ↦
        rw (r, u)
          (ScanOutcome-suc left ip end a _ r u (scan-ScanOutcome left (increment_ip ip) end a))
  ]
]
