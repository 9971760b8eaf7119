-- ===== src/LoadBalancer/Loop/Drain.antt =====
-- A `Stop` that has closed the channel is never stuck (internal/loadbalancer/balancer.go, health.go).
use helios_lb.Prelude.{ℕ, zero, suc, ◌+◌, ◌≡◌, ◌⊎◌, inl, inr, refl, ap, Bool, true, false, arith}
use helios_lb.LoadBalancer.Loop.{
  LoopPhase, starting, selecting, draining, exited, CallerPhase, closing, joining_loop,
  joining_checks, returned, Program, goes, launched, Step, first_check, tick, see_stop, leave_loop,
  finish_check, find_stopped, find_open, close, close_again, join_loop, join_checks, Reach, start,
  later,
}
use helios_lb.LoadBalancer.Loop.Joined.{Reach-Quiet, goes_self}

-- The steps that lead from one state to another.
pub data Leads (s : Program) : Program → Type 0 where
  stay : Leads s s
  onward : {t u : Program} → Leads s t → t.crashed ≡ false → Step t u → Leads s u

-- The program can go on to a state in which the caller has returned at the end of `Stop`.
abbrev pub CanReturn : Program → ℕ → Type 0
CanReturn s i = (t : Program) × Leads s t × (t.callers i ≡ returned)

module _ (s : Program) (i : ℕ) where
  from_exited :
      (t : Program)
      → Leads s t
      → t.crashed ≡ false
      → t.loop ≡ exited
      → t.running ≡ 0
      → t.callers i ≡ joining_loop
      → CanReturn s i
  from_exited t l a x z e =
      let joined = goes t.callers i joining_checks in
      let t' : Program = record t { callers = joined } in
      let t'' : Program = record t { callers = goes joined i returned } in
      let l' = onward {u = t'} l a (join_loop e x) in
      (
        t'',
        onward {u = t''} l' a (join_checks (goes_self t.callers i joining_checks) z),
        goes_self joined i returned,
      )

  from_draining :
      (n : ℕ) (t : Program)
      → Leads s t
      → t.crashed ≡ false
      → t.loop ≡ draining
      → t.running ≡ n
      → t.callers i ≡ joining_loop
      → CanReturn s i
  from_draining zero t l a x z e =
      let t' : Program = record t { loop = exited } in
      from_exited t' (onward l a (leave_loop x z)) a refl z e
  from_draining (suc n) t l a x z e =
      let t' : Program = record t { running = n } in
      from_draining n t' (onward l a (finish_check z)) a x refl e

  from_selecting :
      (t : Program)
      → Leads s t
      → t.crashed ≡ false
      → t.loop ≡ selecting
      → t.stopped ≡ true
      → t.callers i ≡ joining_loop
      → CanReturn s i
  from_selecting t l a x z e =
      let t' : Program = record t { loop = draining } in
      from_draining t.running t' (onward l a (see_stop x z)) a refl refl e

LoopPhase-cases :
    (p : LoopPhase) → ((p ≡ starting) ⊎ (p ≡ selecting)) ⊎ ((p ≡ draining) ⊎ (p ≡ exited))
LoopPhase-cases starting = inl (inl refl)
LoopPhase-cases selecting = inl (inr refl)
LoopPhase-cases draining = inr (inl refl)
LoopPhase-cases exited = inr (inr refl)

-- Whoever waits has closed the channel.
abbrev waits : CallerPhase → Bool
waits joining_loop = true
waits other = false

record Closed (s : Program) : Type 0 where
  closed : (i : ℕ) → waits (s.callers i) ≡ true → s.stopped ≡ true

goes-waits :
    (callers : ℕ → CallerPhase) (i j : ℕ) (p : CallerPhase)
    → waits p ≡ false
    → waits (goes callers i p j) ≡ true
    → waits (callers j) ≡ true
unfolding goes
goes-waits callers i j p n h = ground arith

Step-Closed : {s t : Program} → Step s t → Closed s → Closed t
Step-Closed (first_check e) q = record { closed = q.closed }
Step-Closed (tick e) q = record { closed = q.closed }
Step-Closed (see_stop e z) q = record { closed = q.closed }
Step-Closed (leave_loop e z) q = record { closed = q.closed }
Step-Closed (finish_check e) q = record { closed = q.closed }
Step-Closed {s} (find_stopped {i} e z) q = record { closed = λ j h. z }
Step-Closed {s} (find_open {i} e z) q = record {
  closed = λ j h. q.closed j (goes-waits s.callers i j closing refl h);
}
Step-Closed (close e z) q = record { closed = λ j h. refl }
Step-Closed (close_again e z) q = record { closed = q.closed }
Step-Closed {s} (join_loop {i} e z) q = record {
  closed = λ j h. q.closed j (goes-waits s.callers i j joining_checks refl h);
}
Step-Closed {s} (join_checks {i} e z) q = record {
  closed = λ j h. q.closed j (goes-waits s.callers i j returned refl h);
}

Reach-Closed : {health_check : Bool} {s : Program} → Reach health_check s → Closed s
unfolding launched
Reach-Closed start = record { closed = λ i h. cc }
Reach-Closed (later r a st) = Step-Closed st (Reach-Closed r)

-- From every state that a balancer can come to, short of a crash, in which a `Stop` waits for the
-- loop of the health checks, some steps lead to its return.
pub stop-CanReturn :
    (health_check : Bool) (s : Program) (i : ℕ)
    → Reach health_check s
    → s.crashed ≡ false
    → s.callers i ≡ joining_loop
    → CanReturn s i
stop-CanReturn health_check s i r a e =
    let z = (Reach-Closed r).closed i (ap waits e) in
    elim (LoopPhase-cases s.loop) [
      | inl (inl x) ↦
          from_selecting s i (record s { loop = selecting; running = s.running + 1 })
            (onward stay a (first_check x)) a refl z e
      | inl (inr x) ↦ from_selecting s i s stay a x z e
      | inr (inl x) ↦ from_draining s i s.running s stay a x refl e
      | inr (inr x) ↦ from_exited s i s stay a x ((Reach-Quiet r).settled x) e
    ]
