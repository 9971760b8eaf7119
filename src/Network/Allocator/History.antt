-- ===== src/Network/Allocator/History.antt =====
-- Any sequence of calls on one allocator (internal/network/ip_allocator.go): each call holds the
-- mutex for its whole effect, so the calls of several goroutines are some sequence of steps.
use helios_lb.Prelude.{
  ℕ, ◌≡◌, ◌≢◌, refl, sym, ◌∙◌, ap, inl, inr, true, false, List, [], ◌∷◌, All, arith, Text, Result,
  ok, err, ok-injective, text_eq_refl, text_eq, text_eq_iff, Bool-cases,
}
use helios_lb.Net.Addr.{Ip, equal}
use helios_lb.Network.Parse.{RangeError, parse_ip_range}
use helios_lb.Network.Allocator.{
  IpAllocator, Allocation, is_used, mark_used, release_ip, scan, allocate_between, allocate_ip,
  allocate_specific_ip,
}
use helios_lb.Network.Allocator.Scan.{is_used-mark_used, is_used-release_ip, scan-ScanOutcome}
use helios_lb.Network.Allocator.Specific.{canonical, specific_cases, request_cases}
use helios_lb.Network.Allocator.Free.{
  IsPool, PoolOutcome, allocate_ip-PoolOutcome, allocate_ip-parsed,
}

-- A call leaves the allocator as it was, or marks the text that it returns.
abbrev pub MarksOrKeeps : IpAllocator → Allocation → Type 0
MarksOrKeeps a (ok s, b) = b ≡ mark_used a s
MarksOrKeeps a (err e, b) = b ≡ a

scan-MarksOrKeeps : (left : ℕ) (ip end : Ip) (a : IpAllocator) → MarksOrKeeps a (scan left ip end a)
scan-MarksOrKeeps left ip end a = elim (scan-ScanOutcome left ip end a) [
  | inl (k, l, f, e) ↦ rw e refl
  | inr (inl (k, l, h, b, e)) ↦ rw e refl
  | inr (inr (h, b, e)) ↦ rw e refl
]

between-MarksOrKeeps :
    (a : IpAllocator) (start end : Ip) → MarksOrKeeps a (allocate_between a start end)
unfolding allocate_between
between-MarksOrKeeps a start end = elim (Bool-cases (equal start end)) [
  | inl e ↦ rw (allocate_between, e) refl
  | inr e ↦ rw (allocate_between, e) (scan-MarksOrKeeps a.max_scan start end a)
]

parsed-MarksOrKeeps :
    (a : IpAllocator) (r : Text) (m : Result RangeError (Ip × Ip))
    → parse_ip_range r ≡ m
    → MarksOrKeeps a (allocate_ip a r)
unfolding allocate_ip
parsed-MarksOrKeeps a r (err e) q = rw (allocate_ip, q) refl
parsed-MarksOrKeeps a r (ok (start, end)) q =
    rw (allocate_ip-parsed a r start end q) (between-MarksOrKeeps a start end)

-- `AllocateIP` marks exactly the address that it returns, and a failed call changes nothing.
pub allocate_ip-MarksOrKeeps : (a : IpAllocator) (r : Text) → MarksOrKeeps a (allocate_ip a r)
allocate_ip-MarksOrKeeps a r = parsed-MarksOrKeeps a r (parse_ip_range r) refl

-- So does `AllocateSpecificIP`.
pub specific-MarksOrKeeps :
    (a : IpAllocator) (r q : Text) → MarksOrKeeps a (allocate_specific_ip a r q)
specific-MarksOrKeeps a r q = elim (specific_cases a r q) [
  | inl (n, e) ↦ rw e refl
  | inr (target, n, inl (b, e)) ↦ rw e refl
  | inr (target, n, inr (inl (b, u, e))) ↦ rw e refl
  | inr (target, n, inr (inr (b, u, e))) ↦ rw e refl
]

pub data Call : Type 0 where
  allocates : Text → Call
  allocates_specific : Text → Text → Call
  marks releases : Text → Call

unfoldable pub step : IpAllocator → Call → IpAllocator
step a (allocates r) = (allocate_ip a r).1
step a (allocates_specific r q) = (allocate_specific_ip a r q).1
step a (marks s) = mark_used a s
step a (releases s) = release_ip a s

unfoldable pub run : IpAllocator → List Call → IpAllocator
run a [] = a
run a (c ∷ cs) = run (step a c) cs

mark_used_keeps :
    (a : IpAllocator) (s t : Text) → is_used a t ≡ true → is_used (mark_used a s) t ≡ true
mark_used_keeps a s t u = ground (arith, is_used-mark_used a s t)

marked_keeps :
    (a : IpAllocator) (r : Allocation) (t : Text)
    → MarksOrKeeps a r
    → is_used a t ≡ true
    → is_used r.1 t ≡ true
marked_keeps a (ok s, b) t e u = rw e (mark_used_keeps a s t u)
marked_keeps a (err _, b) t e u = rw e u

step_keeps :
    (a : IpAllocator) (c : Call) (t : Text)
    → c ≢ releases t
    → is_used a t ≡ true
    → is_used (step a c) t ≡ true
unfolding step
step_keeps a (allocates r) t n u =
    marked_keeps a (allocate_ip a r) t (allocate_ip-MarksOrKeeps a r) u
step_keeps a (allocates_specific r q) t n u =
    marked_keeps a (allocate_specific_ip a r q) t (specific-MarksOrKeeps a r q) u
step_keeps a (marks s) t n u = mark_used_keeps a s t u
step_keeps a (releases s) t n u = elim (Bool-cases (text_eq s t)) [
  | inl e ↦ absurd (n (ap releases ((text_eq_iff s t).0 e)))
  | inr e ↦ rw (is_used-release_ip a s t, e) u
]

-- An address in use stays so through any calls that do not release it.
pub run_keeps :
    (cs : List Call) (a : IpAllocator) (t : Text)
    → All (λ c. c ≢ releases t) cs
    → is_used a t ≡ true
    → is_used (run a cs) t ≡ true
unfolding run
run_keeps [] a t n u = u
run_keeps (c ∷ cs) a t (n, ns) u = run_keeps cs (step a c) t ns (step_keeps a c t n u)

-- The call returns `s`.
abbrev pub Allocates : IpAllocator → Call → Text → Type 0
Allocates a (allocates r) s = (allocate_ip a r).0 ≡ ok s
Allocates a (allocates_specific r q) s = (allocate_specific_ip a r q).0 ≡ ok s
Allocates a (marks t) s = ⊥
Allocates a (releases t) s = ⊥

-- The range of the text is a pool.
abbrev pub NamesPool : Text → Type 0
NamesPool r = (start : Ip) × (end : Ip) × (parse_ip_range r ≡ ok (start, end)) × IsPool start end

-- A call of `AllocateIP` is on a pool.
abbrev pub FromPool : Call → Type 0
FromPool (allocates r) = NamesPool r
FromPool (allocates_specific r q) = Unit {0}
FromPool (marks s) = Unit {0}
FromPool (releases s) = Unit {0}

returned_marked :
    (a : IpAllocator) (m : Allocation) (s : Text)
    → MarksOrKeeps a m
    → m.0 ≡ ok s
    → is_used m.1 s ≡ true
returned_marked a (ok t, b) s e h =
    rw (e, is_used-mark_used a t s, (text_eq_iff t s).1 (ok-injective t s h)) refl
returned_marked a (err x, b) s e h = cc

allocated_used :
    (a : IpAllocator) (c : Call) (s : Text) → Allocates a c s → is_used (step a c) s ≡ true
unfolding step
allocated_used a (allocates r) s h =
    returned_marked a (allocate_ip a r) s (allocate_ip-MarksOrKeeps a r) h
allocated_used a (allocates_specific r q) s h =
    returned_marked a (allocate_specific_ip a r q) s (specific-MarksOrKeeps a r q) h
allocated_used a (marks t) s h = absurd h
allocated_used a (releases t) s h = absurd h

pool_was_free :
    (a : IpAllocator) (start end : Ip) (m : Allocation) (s : Text)
    → PoolOutcome a start end m
    → m.0 ≡ ok s
    → is_used a s ≡ false
pool_was_free a start end m s (inl (t, b, e, (x, v, g, free, below, rest))) h =
    let q : t ≡ s = ok-injective t s (ap (λ n. n.0) (sym e) ∙ h) in rw q at free
pool_was_free a start end m s (inr (inl (e, u))) h = cc
pool_was_free a start end m s (inr (inr (e, l, u))) h = cc

specific_was_free :
    (a : IpAllocator) (r q s : Text) → (allocate_specific_ip a r q).0 ≡ ok s → is_used a s ≡ false
specific_was_free a r q s h = elim (specific_cases a r q) [
  | inl (n, e) ↦ cc
  | inr (target, n, inl (b, e)) ↦ cc
  | inr (target, n, inr (inl (b, u, e))) ↦ cc
  | inr (target, n, inr (inr (b, u, e))) ↦
      let t : canonical target ≡ s = ok-injective _ s (ap (λ m. m.0) (sym e) ∙ h) in rw t at u
]

pub was_free :
    (a : IpAllocator) (d : Call) (s : Text) → FromPool d → Allocates a d s → is_used a s ≡ false
was_free a (allocates r) s (start, end, e, p) h =
    pool_was_free a start end (allocate_ip a r) s
      (allocate_ip-PoolOutcome a r start end e p.family p.several p.below_top) h
was_free a (allocates_specific r q) s p h = specific_was_free a r q s h
was_free a (marks t) s p h = absurd h
was_free a (releases t) s p h = absurd h

-- No address is handed out twice: once a call has returned it, no later call returns it unless it
-- was released in between, where a later call of `AllocateIP` is one on a pool.
pub no_double_allocation :
    (a : IpAllocator) (c : Call) (cs : List Call) (d : Call) (s : Text)
    → Allocates a c s
    → All (λ x. x ≢ releases s) cs
    → FromPool d
    → ¬ Allocates (run (step a c) cs) d s
no_double_allocation a c cs d s h k p again =
    let held = run_keeps cs (step a c) s k (allocated_used a c s h) in
    let free = was_free (run (step a c) cs) d s p again in cc

-- A request that succeeded succeeds again, with the same address, once that address is released.
pub specific-release :
    (a b : IpAllocator) (r q s : Text)
    → allocate_specific_ip a r q ≡ (ok s, b)
    → allocate_specific_ip (release_ip b s) r q ≡ (ok s, mark_used (release_ip b s) s)
specific-release a b r q s h = elim (specific_cases a r q) [
  | inl (n, e) ↦ cc
  | inr (target, n, inl (t, e)) ↦ cc
  | inr (target, n, inr (inl (t, u, e))) ↦ cc
  | inr (target, n, inr (inr (t, u, e))) ↦
      let same : canonical target ≡ s = ok-injective _ s (ap (λ m. m.0) (sym e ∙ h)) in
      let free : is_used (release_ip b s) (canonical target) ≡ false =
        is_used-release_ip b s (canonical target) ∙ rw (same, text_eq_refl s) in
      elim (request_cases (release_ip b s) r q target n) [
        | inl (t', e') ↦ cc
        | inr (inl (t', u', e')) ↦ cc
        | inr (inr (t', u', e')) ↦ e' ∙ rw same
      ]
]
