-- ===== src/LoadBalancer/Loop.antt =====
-- The goroutines of the health checks and the callers of `Stop` (internal/loadbalancer/health.go and
-- balancer.go), as the steps of one program.
pub mod Joined
pub mod Races
pub mod Drain
use helios_lb.Prelude.{ℕ, suc, ◌+◌, ◌≡◌, Bool, true, false, if◌then◌else◌, ◌==◌}

-- `healthCheckLoop`: before its first check, at its select, in `checkWg.Wait()` behind the closed
-- channel, and behind `wg.Done()`.
pub data LoopPhase : Type 0 where
  starting selecting draining exited : LoopPhase

-- A caller of `Stop`: before it, behind its select and in front of `close`, in `wg.Wait()`, in
-- `checkWg.Wait()`, and behind its return at the end or in the select.
pub data CallerPhase : Type 0 where
  idle closing joining_loop joining_checks returned returned_early : CallerPhase

pub record Program : Type 0 where
  pub loop : LoopPhase
  -- the counter of `checkWg`: the checks that are running
  pub running : ℕ
  -- whether `stopCh` is closed
  pub stopped : Bool
  -- whether a channel was closed twice, which ends the program
  pub crashed : Bool
  pub callers : ℕ → CallerPhase

-- The caller goes on to a phase.
unfoldable pub goes : (ℕ → CallerPhase) → ℕ → CallerPhase → ℕ → CallerPhase
goes callers i p j = if i == j then p else callers j

-- The loop runs from the start exactly where the health check is enabled.
unfoldable pub launched : Bool → Program
launched health_check = record {
  loop = if health_check then starting else exited;
  running = 0;
  stopped = false;
  crashed = false;
  callers = λ i. idle;
}

pub data Step (s : Program) : Program → Type 0 where
  first_check : s.loop ≡ starting → Step s (record s { loop = selecting; running = s.running + 1 })
  -- The ticker may win the select also when the channel is closed.
  tick : s.loop ≡ selecting → Step s (record s { running = s.running + 1 })
  see_stop : s.loop ≡ selecting → s.stopped ≡ true → Step s (record s { loop = draining })
  leave_loop : s.loop ≡ draining → s.running ≡ 0 → Step s (record s { loop = exited })
  finish_check : {n : ℕ} → s.running ≡ suc n → Step s (record s { running = n })
  find_stopped :
      {i : ℕ}
      → s.callers i ≡ idle
      → s.stopped ≡ true
      → Step s (record s { callers = goes s.callers i returned_early })
  find_open :
      {i : ℕ}
      → s.callers i ≡ idle
      → s.stopped ≡ false
      → Step s (record s { callers = goes s.callers i closing })
  close :
      {i : ℕ}
      → s.callers i ≡ closing
      → s.stopped ≡ false
      → Step s (record s { stopped = true; callers = goes s.callers i joining_loop })
  close_again :
      {i : ℕ} → s.callers i ≡ closing → s.stopped ≡ true → Step s (record s { crashed = true })
  join_loop :
      {i : ℕ}
      → s.callers i ≡ joining_loop
      → s.loop ≡ exited
      → Step s (record s { callers = goes s.callers i joining_checks })
  join_checks :
      {i : ℕ}
      → s.callers i ≡ joining_checks
      → s.running ≡ 0
      → Step s (record s { callers = goes s.callers i returned })

-- What a balancer can come to, with callers of `Stop` at any time.
pub data Reach (health_check : Bool) : Program → Type 0 where
  start : Reach health_check (launched health_check)
  later :
      {s t : Program} → Reach health_check s → s.crashed ≡ false → Step s t → Reach health_check t
