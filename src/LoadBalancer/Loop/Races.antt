-- ===== src/LoadBalancer/Loop/Races.antt =====
-- Two callers of `Stop` (internal/loadbalancer/balancer.go).
use helios_lb.Prelude.{ℕ, zero, suc, ◌≡◌, ◌≢◌, refl, sym, subst, ◌∙◌, true, false, arith}
use helios_lb.LoadBalancer.Loop.{
  selecting, CallerPhase, idle, closing, joining_loop, returned_early, Program, goes, launched,
  first_check, tick, find_stopped, find_open, close, close_again, Reach, start, later,
}
use helios_lb.LoadBalancer.Loop.Joined.{goes_self}

-- `n` checks run, and nobody has called `Stop`.
abbrev busy : ℕ → Program
busy n = record {
  loop = selecting;
  running = n;
  stopped = false;
  crashed = false;
  callers = λ i. idle;
}

busy-Reach : (n : ℕ) → Reach true (busy (suc n))
unfolding launched
busy-Reach zero = later start refl (first_check refl)
busy-Reach (suc n) =
    subst (λ x. Reach true (busy x)) (omega arith) (later (busy-Reach n) refl (tick refl))

goes_other :
    (callers : ℕ → CallerPhase) (i j : ℕ) (p : CallerPhase) → i ≢ j → goes callers i p j ≡ callers j
unfolding goes
goes_other callers i j p n = ground (arith, n)

-- With any positive number of checks running, a second `Stop` can return: its select finds the
-- channel that the first has closed, and nothing is waited for.
pub second_stop_early :
    (n i j : ℕ)
    → i ≢ j
    → (s : Program) × Reach true s × (s.running ≡ suc n) × (s.callers j ≡ returned_early)
second_stop_early n i j d =
    let first = goes (λ x. idle) i closing in
    let second = goes first i joining_loop in
    let opened = later (busy-Reach n) refl (find_open {i = i} refl refl) in
    let closed = later opened refl (close (goes_self (λ x. idle) i closing) refl) in
    let still = goes_other first i j joining_loop d ∙ goes_other (λ x. idle) i j closing d in
    let s : Program = record (busy (suc n)) {
      stopped = true;
      callers = goes second j returned_early;
    } in
    (s, later closed refl (find_stopped still refl), refl, goes_self second j returned_early)

-- Two callers of `Stop` can both find the channel open, and the second one to close it ends the
-- program, whatever the number of running checks.
pub two_stops_crash :
    (n i j : ℕ) → i ≢ j → (s : Program) × Reach true s × (s.running ≡ suc n) × (s.crashed ≡ true)
two_stops_crash n i j d =
    let first = goes (λ x. idle) i closing in
    let both = goes first j closing in
    let other = λ (e : j ≡ i). d (sym e) in
    let opened = later (busy-Reach n) refl (find_open {i = i} refl refl) in
    let raced = later opened refl (find_open {i = j} (goes_other (λ x. idle) i j closing d) refl) in
    let mine = goes_other first j i closing other ∙ goes_self (λ x. idle) i closing in
    let closed = later raced refl (close mine refl) in
    let theirs = goes_other both i j joining_loop d ∙ goes_self first j closing in
    let s : Program = record (busy (suc n)) {
      stopped = true;
      crashed = true;
      callers = goes both i joining_loop;
    } in
    (s, later closed refl (close_again theirs refl), refl, refl)
