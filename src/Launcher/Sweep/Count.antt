-- ===== src/Launcher/Sweep/Count.antt =====
-- How many children the whole run of launcher/launcher.cpp leaves.
use linux_scheduler_comparis.Base.{ℕ, ◌+◌, ◌<◌, ◌≡◌, Bool, List, [], Text, length, arith}
use linux_scheduler_comparis.Base.Int.{ℤ, pos, pos_part, ◌+ℤ◌, ◌≤ℤ◌, IsInt, int_max}
use linux_scheduler_comparis.Base.Outcome.{done, >>=-eq-done}
use linux_scheduler_comparis.Text.Number.{to_string}
use linux_scheduler_comparis.Getopt.{Call}
use linux_scheduler_comparis.Process.{System, IsLawful, TestRun, RunProg}
use linux_scheduler_comparis.Process.Count.{NeverFails, KeepsCount}
use linux_scheduler_comparis.Loop.Each.{steps}
use linux_scheduler_comparis.Loop.Keeps.{for_le-keeps, for_lt-keeps}
use linux_scheduler_comparis.Launcher.Args.{Args, Stream, parse_args}
use linux_scheduler_comparis.Launcher.Sweep.{Trial, reps_loop, groups_loop, main}
use linux_scheduler_comparis.Launcher.Sweep.Ends.{main-ends}
use linux_scheduler_comparis.Launcher.Trial.{Message, run_trial, run_trial_total}
use linux_scheduler_comparis.Launcher.Trial.Count.{wrong_waits, Balanced, run_trial-Balanced}

module _ {ℓ κ} {W : Type ℓ} (P : W → Type κ) where
  -- What each trial keeps, `main` keeps.
  pub main-keeps :
      (run_trial : Trial W)
      → ((path pairs : Text) (pin : ℤ) (out : Stream) (use_out : Bool) (w w' : W)
          → run_trial path pairs pin out use_out w ≡ done w'
          → P w
          → P w')
      → (opens : Text → Bool) (argv : List Text) (calls : List Call) (fuel : ℕ) (w w' : W)
      → main run_trial opens argv calls fuel w ≡ done w'
      → P w
      → P w'
  unfolding main groups_loop reps_loop
  main-keeps run_trial keep opens argv calls fuel w w' h p =
      let (args, parsed, swept) = >>=-eq-done (parse_args opens argv calls) _ h in
      for_le-keeps P _
        (λ n w1 w2.
          for_lt-keeps P _
            (λ rep.
              keep args.hackbench_abs_path (to_string n) args.core_to_pin_to args.file
                args.file_valid)
            (pos_part args.reps + 1) (pos 0) args.reps w1 w2)
        fuel args.groups_lower_bound args.groups_upper_bound args.groups_step_size w w' swept p

module _ (S : System) (children : S.State → List ℤ) (L : IsLawful S children)
    (F : NeverFails S children) (run_prog : RunProg S) (K : KeepsCount S children run_prog) where
  -- Over a lawful system whose forks never fail and whose waits fail only without a child, and a
  -- test program that always returns and has as many children at its end as at its start: if the
  -- arguments parse to numbers with a positive step, a lower bound and a repetition count of type
  -- `int` and `upper + step` at most `INT_MAX`, and the fuel exceeds the number of group counts,
  -- the whole program ends, and it leaves as many children more than it found as its log says that
  -- the wrong child was waited for.
  pub main-wrong_waits :
      ((pin : ℤ) (s : S.State) → (r : TestRun × S.State) × (run_prog pin s ≡ done r))
      → (opens : Text → Bool) (argv : List Text) (calls : List Call) (fuel : ℕ) (s : S.State)
        (args : Args) (step : ℕ)
      → parse_args opens argv calls ≡ done args
      → args.groups_step_size ≡ pos step
      → 0 < step
      → IsInt args.groups_lower_bound
      → args.groups_upper_bound +ℤ pos step ≤ℤ pos int_max
      → IsInt args.reps
      → steps args.groups_lower_bound args.groups_upper_bound step < fuel
      → (t : S.State) × (log : List Message) × (main
            (run_trial S run_prog)
            opens
            argv
            calls
            fuel
            (s, [])
          ≡ done (t, log))
        × (length (children t) ≡ length (children s) + wrong_waits log)
  main-wrong_waits total opens argv calls fuel s args step parsed stepped h hl hu hr f =
      let ((t, log), ran) =
        main-ends (run_trial S run_prog) (run_trial_total S run_prog total) opens argv calls fuel
          (s, []) args step parsed stepped h hl hu hr f in
      (
        t,
        log,
        ran,
        main-keeps (Balanced S children (length (children s))) (run_trial S run_prog)
            (λ path pairs pin out use_out (s1, log1) w2 ended balanced.
              run_trial-Balanced S children L F run_prog K (length (children s)) path pairs pin out
                use_out s1 log1 w2 ended balanced)
            opens argv calls fuel (s, []) (t, log) ran (unfold wrong_waits in omega arith),
      )
