-- ===== src/Tests/Loops.antt =====
-- Instances of the theorems about the goroutines of the load balancer.
use helios_lb.Prelude.{◌≡◌, refl, true}
use helios_lb.LoadBalancer.Loop.{
  selecting, exited, closing, joining_loop, joining_checks, returned, Program, goes, launched,
  first_check, see_stop, leave_loop, finish_check, find_open, close, join_loop, join_checks, Reach,
  start, later,
}
use helios_lb.LoadBalancer.Loop.Joined.{returned_behind_checks}
use helios_lb.LoadBalancer.Loop.Drain.{CanReturn, stop-CanReturn}

-- The first check runs, and a caller of `Stop` waits for the loop.
abbrev waiting : Program
waiting = record (launched true) {
  loop = selecting;
  running = 1;
  stopped = true;
  callers = goes (goes (launched true).callers 0 closing) 0 joining_loop;
}

waiting-Reach : Reach true waiting
unfolding launched goes
waiting-Reach =
    let begun = later start refl (first_check refl) in
    let opened = later begun refl (find_open {i = 0} refl refl) in
    later opened refl (close {i = 0} refl refl)

-- The caller has returned.
abbrev over : Program
over = record waiting {
  loop = exited;
  running = 0;
  callers = goes (goes waiting.callers 0 joining_checks) 0 returned;
}

over-Reach : Reach true over
unfolding launched goes
over-Reach =
    let seen = later waiting-Reach refl (see_stop refl refl) in
    let finished = later seen refl (finish_check {n = 0} refl) in
    let left = later finished refl (leave_loop refl refl) in
    let joined = later left refl (join_loop {i = 0} refl refl) in
    later joined refl (join_checks {i = 0} refl refl)

waited_example : (over.loop ≡ exited) × (over.running ≡ 0)
unfolding launched goes
waited_example = returned_behind_checks true over 0 over-Reach refl

return_example : CanReturn waiting 0
unfolding launched goes
return_example = stop-CanReturn true waiting 0 waiting-Reach refl refl
