-- ===== src/LoadBalancer/Loop/Joined.antt =====
-- What a `Stop` that returns at its end has waited for (internal/loadbalancer/balancer.go).
use helios_lb.Prelude.{ℕ, ◌≡◌, refl, ap, Bool, true, false, arith}
use helios_lb.LoadBalancer.Loop.{
  exited, CallerPhase, closing, joining_loop, joining_checks, returned, returned_early, Program,
  goes, launched, Step, first_check, tick, see_stop, leave_loop, finish_check, find_stopped,
  find_open, close, close_again, join_loop, join_checks, Reach, start, later,
}

-- The caller has waited for the loop.
abbrev pub past_loop : CallerPhase → Bool
past_loop joining_checks = true
past_loop returned = true
past_loop other = false

-- A loop that has exited left no check, and whoever waited for it found it so.
pub record Quiet (s : Program) : Type 0 where
  pub settled : s.loop ≡ exited → s.running ≡ 0
  pub waited : (i : ℕ) → past_loop (s.callers i) ≡ true → s.loop ≡ exited

goes-past_loop :
    (callers : ℕ → CallerPhase) (i j : ℕ) (p : CallerPhase)
    → past_loop p ≡ false
    → past_loop (goes callers i p j) ≡ true
    → past_loop (callers j) ≡ true
unfolding goes
goes-past_loop callers i j p n h = ground arith

Step-Quiet : {s t : Program} → Step s t → Quiet s → Quiet t
Step-Quiet (first_check e) q = record {
  settled = λ x. cc;
  waited = λ i h. let c = q.waited i h in cc;
}
Step-Quiet (tick e) q = record { settled = λ x. cc; waited = q.waited }
Step-Quiet (see_stop e z) q = record {
  settled = λ x. cc;
  waited = λ i h. let c = q.waited i h in cc;
}
Step-Quiet (leave_loop e z) q = record { settled = λ x. z; waited = λ i h. refl }
Step-Quiet (finish_check e) q = record {
  settled = λ x. ground (arith, e, q.settled x);
  waited = q.waited;
}
Step-Quiet {s} (find_stopped {i} e z) q = record {
  settled = q.settled;
  waited = λ j h. q.waited j (goes-past_loop s.callers i j returned_early refl h);
}
Step-Quiet {s} (find_open {i} e z) q = record {
  settled = q.settled;
  waited = λ j h. q.waited j (goes-past_loop s.callers i j closing refl h);
}
Step-Quiet {s} (close {i} e z) q = record {
  settled = q.settled;
  waited = λ j h. q.waited j (goes-past_loop s.callers i j joining_loop refl h);
}
Step-Quiet (close_again e z) q = record { settled = q.settled; waited = q.waited }
Step-Quiet (join_loop e z) q = record { settled = q.settled; waited = λ j h. z }
Step-Quiet {s} (join_checks {i} e z) q = record {
  settled = q.settled;
  waited = λ j h. q.waited i (ap past_loop e);
}

launched-Quiet : (health_check : Bool) → Quiet (launched health_check)
unfolding launched
launched-Quiet health_check = record { settled = λ x. refl; waited = λ i h. cc }

pub Reach-Quiet : {health_check : Bool} {s : Program} → Reach health_check s → Quiet s
Reach-Quiet {health_check} start = launched-Quiet health_check
Reach-Quiet (later r a st) = Step-Quiet st (Reach-Quiet r)

-- Whatever the goroutines do, once a `Stop` has returned at its end, the loop of the health checks
-- has exited and no check runs.
pub returned_behind_checks :
    (health_check : Bool) (s : Program) (i : ℕ)
    → Reach health_check s
    → s.callers i ≡ returned
    → (s.loop ≡ exited) × (s.running ≡ 0)
returned_behind_checks health_check s i r e =
    let q = Reach-Quiet r in let x = q.waited i (ap past_loop e) in (x, q.settled x)

pub goes_self : (callers : ℕ → CallerPhase) (i : ℕ) (p : CallerPhase) → goes callers i p i ≡ p
unfolding goes
goes_self callers i p = ground arith
