-- ===== src/Interrupt/Whole.antt =====
-- The whole run of gzip/hackbench_interupt.cpp.
use linux_scheduler_comparis.Base.{ℕ, ◌+◌, ◌<◌, ◌≡◌, Bool, List, [], Text, length, arith}
use linux_scheduler_comparis.Base.Int.{ℤ, pos, ◌+ℤ◌, ◌≤ℤ◌, IsInt, int_max}
use linux_scheduler_comparis.Base.Outcome.{done}
use linux_scheduler_comparis.Getopt.{Call}
use linux_scheduler_comparis.Process.{System, IsLawful}
use linux_scheduler_comparis.Process.Count.{NeverFails}
use linux_scheduler_comparis.Harness.{remove_if_exists}
use linux_scheduler_comparis.Loop.Each.{steps}
use linux_scheduler_comparis.Launcher.Args.{Args}
use linux_scheduler_comparis.Launcher.Sweep.Ends.{main-ends}
use linux_scheduler_comparis.Launcher.Sweep.Count.{main-keeps}
use linux_scheduler_comparis.Launcher.Trial.{Message}
use linux_scheduler_comparis.Launcher.Trial.Count.{wrong_waits, Balanced}
use linux_scheduler_comparis.Interrupt
use linux_scheduler_comparis.Interrupt.Trial.{run_trial, run_trial_total}
use linux_scheduler_comparis.Interrupt.Trial.Children.{run_trial-Balanced}

module _ (S : System) (children : S.State → List ℤ) (L : IsLawful S children)
    (F : NeverFails S children) where
  -- Over a lawful system whose forks never fail and whose waits fail only without a child, and
  -- whose test for the unpacked file and removal of it never throw: for hackbench_interupt, if the
  -- arguments parse to numbers with a positive step, a lower bound and a repetition count of type
  -- `int` and `upper + step` at most `INT_MAX`, and the fuel exceeds the number of group counts,
  -- the whole program ends, and it leaves as many children more than it found as its log says that
  -- the wrong child was waited for.
  pub main-run_trial :
      ((path : Text) (s : S.State) → (t : S.State) × (remove_if_exists S path s ≡ done t))
      → (opens : Text → Bool) (argv : List Text) (calls : List Call) (fuel : ℕ) (s : S.State)
        (args : Args) (step : ℕ)
      → Interrupt.parse_args opens argv calls ≡ done args
      → args.groups_step_size ≡ pos step
      → 0 < step
      → IsInt args.groups_lower_bound
      → args.groups_upper_bound +ℤ pos step ≤ℤ pos int_max
      → IsInt args.reps
      → steps args.groups_lower_bound args.groups_upper_bound step < fuel
      → (t : S.State) × (log : List Message) × (Interrupt.main S opens argv calls fuel (s, [])
          ≡ done (t, log))
        × (length (children t) ≡ length (children s) + wrong_waits log)
  unfolding Interrupt.main Interrupt.parse_args
  main-run_trial total opens argv calls fuel s args step parsed stepped h hl hu hr f =
      let ((t, log), ran) =
        main-ends (run_trial S) (run_trial_total S total) opens argv calls fuel (s, []) args step
          parsed stepped h hl hu hr f in
      (
        t,
        log,
        ran,
        main-keeps (Balanced S children (length (children s))) (run_trial S)
            (λ path pairs pin out use_out (s1, log1) w2 ended balanced.
              run_trial-Balanced S children L F (length (children s)) path pairs pin out use_out s1
                log1 w2 ended balanced)
            opens argv calls fuel (s, []) (t, log) ran (unfold wrong_waits in omega arith),
      )
