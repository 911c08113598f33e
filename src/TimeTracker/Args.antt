-- ===== src/TimeTracker/Args.antt =====
-- `Args` and `parse_args` of time_tracker/time_tracker.cpp.
use linux_scheduler_comparis.Base.{ℕ, Option, none, some, List, Text, codes, ◌==◌, if◌then◌else◌}
use linux_scheduler_comparis.Base.Int.{ℤ, pos}
use linux_scheduler_comparis.Base.Outcome.{Outcome, done, ◌>>=◌}
use linux_scheduler_comparis.Text.Number.{stoi}
use linux_scheduler_comparis.Getopt.{Call}
use linux_scheduler_comparis.Getopt.Loop.{parse_with}

pub record Args : Type 0 where
  pub core_to_pin : ℤ
  pub output_file : Text
  pub max_duration : ℤ  -- in milliseconds

unfoldable pub default_args : Args
default_args = record {
  core_to_pin = pos 0;
  output_file = codes "tracker.log";
  max_duration = pos 1000;
}

set_core : Text → Args → Outcome Args
set_core text args = do core ← stoi text; done (record args { core_to_pin = core })

set_file : Text → Args → Outcome Args
set_file text args = done (record args { output_file = text })

set_time : Text → Args → Outcome Args
set_time text args = do duration ← stoi text; done (record args { max_duration = duration })

unfoldable pub handler : ℕ → Option (Text → Args → Outcome Args)
unfolding set_core set_file set_time
handler c =
    if c == b'c'
    then some set_core
    else if c == b'f'
    then some set_file
    else if c == b't'
    then some set_time
    else none

unfoldable pub parse_args : List Text → List Call → Outcome Args
parse_args argv calls = parse_with handler argv default_args calls
