-- ===== src/Launcher/Sweep/Whole.antt =====
-- `main` of launcher/launcher.cpp from its command line to its trials.
use linux_scheduler_comparis.Base.{ℕ, ◌<◌, ◌≡◌, Bool, false, List, [], ◌∷◌, map, Text, codes}
use linux_scheduler_comparis.Base.Int.{ℤ, pos, pos_part, minus_one, ◌+ℤ◌, ◌≤ℤ◌, IsInt, int_max}
use linux_scheduler_comparis.Base.Outcome.{done}
use linux_scheduler_comparis.Text.Number.{to_string}
use linux_scheduler_comparis.Text.Number.RoundTrip.{stoi-to_string}
use linux_scheduler_comparis.Launcher.Args.{Args, default_args, set_reps, closed_stream}
use linux_scheduler_comparis.Launcher.Args.Tuple.{tuple_text, set_groups-tuple_text}
use linux_scheduler_comparis.Launcher.Args.Laws.{
  groups, reps, short_call, apply_setting, apply_settings, parse_args-short_call,
}
use linux_scheduler_comparis.Launcher.Sweep.{Trial, main}
use linux_scheduler_comparis.Loop.Each.{steps, progression}
use linux_scheduler_comparis.Launcher.Sweep.Schedule.{planned, run_each, groups_loop-run_each}

swept : ℤ → ℤ → ℤ → ℤ → Args
unfolding default_args
swept lower upper step count = record default_args {
  groups_lower_bound = lower;
  groups_upper_bound = upper;
  groups_step_size = step;
  reps = count;
}

settings_of_sweep :
    (opens : Text → Bool) (lower upper step count : ℤ)
    → IsInt lower
    → IsInt upper
    → IsInt step
    → IsInt count
    → apply_settings opens
        (groups (tuple_text lower upper step) ∷ reps (to_string count) ∷ [])
        default_args
      ≡ done (swept lower upper step count)
unfolding apply_settings apply_setting set_reps swept
settings_of_sweep opens lower upper step count hl hu hs hc =
    rw (set_groups-tuple_text lower upper step default_args hl hu hs, stoi-to_string count hc)

-- With `-g (lower,upper,step) -r count` as the arguments, all four numbers of type `int`, a
-- positive step, `upper + step` at most `INT_MAX`, and more fuel than the sweep has group counts,
-- `main` runs `run_trial` for lower, lower + step, … up to upper, each `count` times (never, if
-- `count` is not positive), with the default path, no core and no file, and passes on how a trial
-- ends the program.
pub main-planned {ℓ} :
    {W : Type ℓ} (run_trial : Trial W) (opens : Text → Bool) (prog : Text) (argv : List Text)
    (lower upper : ℤ) (step : ℕ) (count : ℤ) (fuel : ℕ) (w : W)
    → 0 < step
    → IsInt lower
    → IsInt upper
    → IsInt (pos step)
    → upper +ℤ pos step ≤ℤ pos int_max
    → IsInt count
    → steps lower upper step < fuel
    → main run_trial opens
        (prog ∷ argv)
        (map short_call (groups (tuple_text lower upper (pos step)) ∷ reps (to_string count) ∷ []))
        fuel
        w
      ≡ run_each
          (λ n rep. run_trial (codes "hackbench") (to_string n) minus_one closed_stream false)
          (planned
            (progression (steps lower upper step) lower (pos step))
            (progression (pos_part count) (pos 0) (pos 1)))
          w
unfolding main swept default_args
main-planned run_trial opens prog argv lower upper step count fuel w h hl hu hs last hc f =
    rw
      (
        parse_args-short_call opens prog argv
            (groups (tuple_text lower upper (pos step)) ∷ reps (to_string count) ∷ []),
        settings_of_sweep opens lower upper (pos step) count hl hu hs hc,
      )
      (groups_loop-run_each _ fuel lower upper step count w h hl last hc f)
