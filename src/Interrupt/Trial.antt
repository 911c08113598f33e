-- ===== src/Interrupt/Trial.antt =====
-- `run_trial` of gzip/hackbench_interupt.cpp: gzip runs alone for three seconds, then beside
-- hackbench. What follows the first `wait` and the second removal is as in launcher/launcher.cpp.
pub mod Children
use linux_scheduler_comparis.Base.{ℕ, ◌-◌, ◌*◌, ◌^◌, ◌≡◌, refl, Bool, List, Text, codes}
use linux_scheduler_comparis.Base.Int.{ℤ}
use linux_scheduler_comparis.Base.Outcome.{Outcome, done, ◌>>=◌}
use linux_scheduler_comparis.Process.{System, TestRun}
use linux_scheduler_comparis.Harness.{gunzip, below, remove_if_exists, run_gzip}
use linux_scheduler_comparis.Launcher.Args.{Stream}
use linux_scheduler_comparis.Launcher.Trial.{hackbench_child, Message, finish_trial}

module _ (S : System) where
  -- From the first reading of the clock to the second: both forks and the first `wait`.
  unfoldable pub interrupted : Text → Text → ℤ → S.State → ℤ × TestRun × S.State
  interrupted hackbench_abs_path pairs pin_to_core s =
      let (start, s1) = S.now s in
      let (test_proc_pid, s2) = S.fork (gunzip pin_to_core) s1 in
      let s3 = S.sleep_for (3 * 10 ^ 9) s2 in
      let (hackbench, s4) = S.fork (hackbench_child hackbench_abs_path pairs pin_to_core) s3 in
      let (wait_pid, s5) = S.wait s4 in
      let (end_time, s6) = S.now s5 in
      (
        hackbench,
        record { spawned = test_proc_pid; waited = wait_pid; nanoseconds = end_time - start },
        s6,
      )

  unfoldable pub run_trial :
      Text → Text → ℤ → Stream → Bool → S.State × List Message → Outcome (S.State × List Message)
  run_trial hackbench_abs_path pairs pin_to_core out use_out (s, log) = do
    let path = below S (codes "gcc-13.2.0.tar") s
    s1 ← remove_if_exists S path s
    let (hackbench, run, s2) = interrupted hackbench_abs_path pairs pin_to_core s1
    s3 ← remove_if_exists S path s2
    done (finish_trial S (run_gzip S) hackbench run out use_out (s3, log))

  -- A trial ends if its removals do.
  pub run_trial_total :
      ((path : Text) (s : S.State) → (t : S.State) × (remove_if_exists S path s ≡ done t))
      → (path pairs : Text) (pin : ℤ) (out : Stream) (use_out : Bool) (w : S.State × List Message)
      → (w' : S.State × List Message) × (run_trial path pairs pin out use_out w ≡ done w')
  unfolding run_trial
  run_trial_total total path pairs pin out use_out (s, log) =
      let file = below S (codes "gcc-13.2.0.tar") s in
      let (s1, removed) = total file s in
      let (hackbench, run, s2) = interrupted path pairs pin s1 in
      let (s3, cleaned) = total file s2 in
      (finish_trial S (run_gzip S) hackbench run out use_out (s3, log), rw (removed, cleaned) refl)
