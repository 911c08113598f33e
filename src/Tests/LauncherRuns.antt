-- ===== src/Tests/LauncherRuns.antt =====
-- Runs of the launcher and of the harnesses.
use mathlib.Core.List.{Perm, cons-ne-nil}
use linux_scheduler_comparis.Base.{
  ℕ, ◌+◌, ◌≡◌, refl, Bool, true, false, some, List, [], ◌∷◌, ◌++◌, arith, Text, codes, map, inl,
  inr, Lacks, All,
}
use linux_scheduler_comparis.Base.Int.{ℤ, pos, ◌+ℤ◌, minus_one}
use linux_scheduler_comparis.Base.Outcome.{Outcome, done, exits, spent}
use linux_scheduler_comparis.Text.Number.{to_string, stoi}
use linux_scheduler_comparis.Getopt.{Call, is_null}
use linux_scheduler_comparis.Process
use linux_scheduler_comparis.Process.{TestRun}
use linux_scheduler_comparis.Harness.{
  run_gzip, run_extract, run_ffmpeg, timed, remove_if_exists, remove_all_if_directory, pin_of,
}
use linux_scheduler_comparis.Harness.Laws.{run_gzip-IsTestProgram}
use linux_scheduler_comparis.Launcher.Split.{string_to_vec_by_delim}
use linux_scheduler_comparis.Launcher.Split.Fields.{join, join-split, split-join}
use linux_scheduler_comparis.Launcher.Args.{
  closed_stream, Args, default_args, set_groups, set_pin, parse_args, parse_calls, parse_call,
  handler, with_argument,
}
use linux_scheduler_comparis.Launcher.Args.Tuple.{tuple_text, set_groups-tuple_text}
use linux_scheduler_comparis.Launcher.Args.Laws.{
  groups, reps, pin, short_call, apply_settings, parse_args-short_call, parse_args-long_refused,
}
use linux_scheduler_comparis.Launcher.Sweep.{Trial, groups_loop, main}
use linux_scheduler_comparis.Loop.Each.{steps, progression}
use linux_scheduler_comparis.Launcher.Sweep.Schedule.{planned, run_each, groups_loop-zero}
use linux_scheduler_comparis.Launcher.Sweep.Whole.{main-planned}
use linux_scheduler_comparis.Launcher.Trial.{letting_run, run_trial}
use linux_scheduler_comparis.Launcher.Trial.Children.{times, run_trial-children}
use linux_scheduler_comparis.Tests.Machine.{Children, machine, children_of, machine-IsLawful}

join-split_example :
    (parts : List Text) × (string_to_vec_by_delim (codes "1,8,2") (b',' ∷ []) ≡ done parts)
    × (join b',' parts ≡ codes "1,8,2")
    × All (Lacks b',') parts
join-split_example = join-split (codes "1,8,2") b','

abbrev bounds : List Text
bounds = codes "1" ∷ codes "8" ∷ []

split-join_example : string_to_vec_by_delim (join b',' bounds) (b',' ∷ []) ≡ done bounds
split-join_example = split-join b',' bounds (cons-ne-nil _ _) (omega arith)

set_groups-tuple_text_example :
    set_groups (tuple_text (pos 1) (pos 8) (pos 2)) default_args
    ≡ done (record default_args {
      groups_lower_bound = pos 1;
      groups_upper_bound = pos 8;
      groups_step_size = pos 2;
    })
set_groups-tuple_text_example =
    set_groups-tuple_text (pos 1) (pos 8) (pos 2) default_args (omega arith) (omega arith)
      (omega arith)

abbrev no_file : Text → Bool
no_file name = false

abbrev prog : Text
prog = codes "launcher"

parse_args-short_call_example :
    parse_args no_file (prog ∷ []) (map short_call (pin (codes "3") ∷ reps (codes "x") ∷ []))
    ≡ apply_settings no_file (pin (codes "3") ∷ reps (codes "x") ∷ []) default_args
parse_args-short_call_example =
    parse_args-short_call no_file prog [] (pin (codes "3") ∷ reps (codes "x") ∷ [])

abbrev pin_call : Call
pin_call = record { option = b'p'; optarg = some (codes "3"); longindex = some 1 }

abbrev pinned_args : Args
unfolding default_args
pinned_args = record default_args { core_to_pin_to = pos 3 }

pin_parsed : parse_args no_file (prog ∷ codes "--pin=3" ∷ []) (pin_call ∷ []) ≡ done pinned_args
unfolding parse_args default_args parse_calls parse_call handler with_argument is_null set_pin stoi
pin_parsed = refl

parse_args-long_refused_example :
    parse_args no_file
      (prog ∷ codes "--reps=5" ∷ [])
      (record { option = b'r'; optarg = some (codes "5"); longindex = some 2 } ∷ [])
    ≡ exits minus_one
parse_args-long_refused_example =
    parse_args-long_refused no_file (prog ∷ codes "--reps=5" ∷ []) b'r' (codes "5")
      (inr (inr (inl refl)))

-- A trial that notes its group count.
abbrev noting : Trial (List Text)
noting path pairs core out use_out w = done (w ++ pairs ∷ [])

abbrev sweep_calls : List Call
sweep_calls =
    map short_call (groups (tuple_text (pos 1) (pos 8) (pos 2)) ∷ reps (to_string (pos 3)) ∷ [])

main-planned_example :
    main noting no_file (prog ∷ []) sweep_calls 5 []
    ≡ run_each
        (λ n rep. noting (codes "hackbench") (to_string n) minus_one closed_stream false)
        (planned
          (progression (steps (pos 1) (pos 8) 2) (pos 1) (pos 2))
          (progression 3 (pos 0) (pos 1)))
        []
main-planned_example =
    main-planned noting no_file prog [] (pos 1) (pos 8) 2 (pos 3) 5 [] (omega arith) (omega arith)
      (omega arith) (omega arith) (unfold ◌+ℤ◌ in omega arith) (omega arith)
      (unfold steps in ground arith)

abbrev counting : ℤ → ℤ → ℕ → Outcome ℕ
counting n rep w = done (w + 1)

groups_loop-zero_example : groups_loop counting 9 (pos 1) (pos 5) (pos 0) (pos 2) 0 ≡ spent
groups_loop-zero_example =
    groups_loop-zero counting (λ n rep w. (w + 1, refl)) 9 (pos 1) (pos 5) (pos 2) 0 (omega arith)
      (omega arith) (omega arith)

-- A system with no other child, and its first two pids.
abbrev idle : Children
idle = ([], 40)

abbrev idle_later : Children
idle_later = ([], 42)

abbrev gzip_run : TestRun
gzip_run = record { spawned = pos 41; waited = pos 41; nanoseconds = 0 }

abbrev odd_run : TestRun
odd_run = record { spawned = pos 41; waited = pos 40; nanoseconds = 0 }

timed_gzip : run_gzip (machine true) (pos 2) (pos 40 ∷ [], 41) ≡ done (gzip_run, (pos 40 ∷ [], 42))
unfolding run_gzip timed remove_if_exists pin_of
timed_gzip = refl

timed_odd : run_gzip (machine false) (pos 2) (pos 40 ∷ [], 41) ≡ done (odd_run, (pos 41 ∷ [], 42))
unfolding run_gzip timed remove_if_exists pin_of
timed_odd = refl

run_trial-children_example :
    (run_trial
        (machine true)
        (run_gzip (machine true))
        (codes "hb")
        (codes "4")
        (pos 2)
        closed_stream
        true
        (idle, [])
      ≡ done (idle_later, letting_run ∷ times closed_stream true 0))
    × Perm (children_of idle_later) (children_of idle)
run_trial-children_example =
    run_trial-children (machine true) children_of (machine-IsLawful true) (run_gzip (machine true))
      (run_gzip-IsTestProgram (machine true) (machine-IsLawful true)) (codes "hb") (codes "4")
      (pos 2) closed_stream true idle (pos 40 ∷ [], 42) [] gzip_run (cc) timed_gzip (cc) refl refl

-- A system on which every fork fails, and a test program whose run is one that it was given.
abbrev no_forks : Process.System
no_forks = record (machine true) { fork = λ c s. (minus_one, s); wait = λ s. (minus_one, s) }

abbrev failed_run : TestRun
failed_run = record { spawned = minus_one; waited = minus_one; nanoseconds = 0 }

failed_gzip : run_gzip no_forks (pos 2) idle ≡ done (failed_run, idle)
unfolding run_gzip timed remove_if_exists pin_of
failed_gzip = refl

timed_tar :
    run_extract (machine false) (pos 2) (pos 40 ∷ [], 41) ≡ done (odd_run, (pos 41 ∷ [], 42))
unfolding run_extract timed remove_all_if_directory pin_of
timed_tar = refl

timed_ffmpeg :
    run_ffmpeg (machine false) (pos 2) (pos 40 ∷ [], 41) ≡ done (odd_run, (pos 41 ∷ [], 42))
unfolding run_ffmpeg timed pin_of
timed_ffmpeg = refl
