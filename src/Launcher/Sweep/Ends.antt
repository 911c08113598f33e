-- ===== src/Launcher/Sweep/Ends.antt =====
-- `main` of launcher/launcher.cpp ends, for any arguments whose loops do.
use linux_scheduler_comparis.Base.{ℕ, ◌<◌, ◌≡◌, ◌∙◌, Bool, List, Text}
use linux_scheduler_comparis.Base.Int.{ℤ, pos, ◌+ℤ◌, ◌≤ℤ◌, IsInt, int_max}
use linux_scheduler_comparis.Base.Outcome.{Outcome, done}
use linux_scheduler_comparis.Getopt.{Call}
use linux_scheduler_comparis.Text.Number.{to_string}
use linux_scheduler_comparis.Loop.Each.{steps, up_to, below}
use linux_scheduler_comparis.Launcher.Args.{Args, Stream, parse_args}
use linux_scheduler_comparis.Launcher.Sweep.{Trial, main}
use linux_scheduler_comparis.Launcher.Sweep.Schedule.{planned, run_each_total, groups_loop-run_each}

module _ {ℓ} {W : Type ℓ} (run_trial : Trial W)
    (total : (path pairs : Text) (pin : ℤ) (out : Stream) (use_out : Bool) (w : W)
      → (w' : W) × (run_trial path pairs pin out use_out w ≡ done w')) where
  pub main-ends :
      (opens : Text → Bool) (argv : List Text) (calls : List Call) (fuel : ℕ) (w : W) (args : Args)
      (step : ℕ)
      → parse_args opens argv calls ≡ done args
      → args.groups_step_size ≡ pos step
      → 0 < step
      → IsInt args.groups_lower_bound
      → args.groups_upper_bound +ℤ pos step ≤ℤ pos int_max
      → IsInt args.reps
      → steps args.groups_lower_bound args.groups_upper_bound step < fuel
      → (w' : W) × (main run_trial opens argv calls fuel w ≡ done w')
  unfolding main
  main-ends opens argv calls fuel w args step parsed stepped h hl hu hr f =
      let trial : ℤ → ℤ → W → Outcome W = λ n rep.
        run_trial args.hackbench_abs_path (to_string n) args.core_to_pin_to args.file
          args.file_valid in
      let plan =
        planned (up_to args.groups_lower_bound args.groups_upper_bound step) (below args.reps) in
      let (w', ran) =
        run_each_total trial
          (λ n rep.
            total args.hackbench_abs_path (to_string n) args.core_to_pin_to args.file
              args.file_valid)
          plan w in
      (
        w',
        rw (parsed, stepped)
            (groups_loop-run_each trial fuel args.groups_lower_bound args.groups_upper_bound step
                args.reps w h hl hu hr f
              ∙ ran),
      )
