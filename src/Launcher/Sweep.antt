-- ===== src/Launcher/Sweep.antt =====
-- The two loops of `main` in launcher/launcher.cpp, over what they change: any state that one trial
-- takes and returns.
pub mod Schedule
pub mod Whole
pub mod Ends
pub mod Count
use linux_scheduler_comparis.Base.{ℕ, ◌+◌, Bool, List, Text}
use linux_scheduler_comparis.Base.Int.{ℤ, pos, pos_part}
use linux_scheduler_comparis.Base.Outcome.{Outcome, ◌>>=◌}
use linux_scheduler_comparis.Text.Number.{to_string}
use linux_scheduler_comparis.Loop.{for_le, for_lt}
use linux_scheduler_comparis.Launcher.Args.{Stream, parse_args}
use linux_scheduler_comparis.Getopt.{Call}

module _ {ℓ} {W : Type ℓ} (trial : ℤ → ℤ → W → Outcome W) where
  -- `for (int rep = 0; rep < args.reps; rep++)`; the rounds are never more than the fuel.
  unfoldable pub reps_loop : ℤ → ℤ → W → Outcome W
  reps_loop num_pairs reps w = for_lt (trial num_pairs) (pos_part reps + 1) (pos 0) reps w

  -- `for (int num_pairs = lower; num_pairs <= upper; num_pairs += step)`
  unfoldable pub groups_loop : ℕ → ℤ → ℤ → ℤ → ℤ → W → Outcome W
  unfolding reps_loop
  groups_loop fuel lower upper step reps w =
      for_le (λ num_pairs. reps_loop num_pairs reps) fuel lower upper step w

-- `run_trial(args.hackbench_abs_path, num_pairs_str, args.core_to_pin_to, args.file, file_valid)`
abbrev pub Trial {ℓ} : Type ℓ → Type ℓ
Trial W = Text → Text → ℤ → Stream → Bool → W → Outcome W

-- `main`, with the trial, the system's `opens` and the results of `getopt_long` as parameters.
unfoldable pub main {ℓ} :
    {W : Type ℓ} → Trial W → (Text → Bool) → List Text → List Call → ℕ → W → Outcome W
main run_trial opens argv calls fuel w = do
  args ← parse_args opens argv calls
  groups_loop
      (λ num_pairs rep.
        run_trial args.hackbench_abs_path (to_string num_pairs) args.core_to_pin_to args.file
          args.file_valid)
      fuel args.groups_lower_bound args.groups_upper_bound args.groups_step_size args.reps w
