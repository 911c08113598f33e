-- ===== src/Tests/WholeRuns.antt =====
-- Whole runs of the two launchers over gzip.
use mathlib.Core.List.{Perm}
use mathlib.Core.List.Perm
use linux_scheduler_comparis.Base.{
  ℕ, ◌+◌, ◌<◌, ◌≡◌, ◌≢◌, refl, Bool, true, false, List, [], ◌∷◌, Text, codes, length, arith,
}
use linux_scheduler_comparis.Base.Int.{ℤ, pos, minus_one, ◌+ℤ◌}
use linux_scheduler_comparis.Base.Outcome.{done}
use linux_scheduler_comparis.Process
use linux_scheduler_comparis.Process.Count.{NeverFails}
use linux_scheduler_comparis.Process.{TestRun}
use linux_scheduler_comparis.Harness.{run_gzip, timed, remove_if_exists, pin_of, gunzip}
use linux_scheduler_comparis.Harness.Count.{run_gzip-KeepsCount}
use linux_scheduler_comparis.Loop.{add_int, for_le, for_lt}
use linux_scheduler_comparis.Loop.Each.{steps}
use linux_scheduler_comparis.Launcher.Args.{default_args, parse_args, parse_calls}
use linux_scheduler_comparis.Launcher.Trial.{
  Message, letting_run, waited_wrong, cout_time, finish_trial, run_trial,
}
use linux_scheduler_comparis.Launcher.Trial.Count.{wrong_waits}
use linux_scheduler_comparis.Launcher.Sweep.{reps_loop, groups_loop, main}
use linux_scheduler_comparis.Launcher.Sweep.Count.{main-wrong_waits}
use linux_scheduler_comparis.Interrupt
use linux_scheduler_comparis.Interrupt.Trial.{interrupted, run_trial as interrupt_trial}
use linux_scheduler_comparis.Interrupt.Whole.{main-run_trial}

-- The numbers of the children and of the next one. Of two children the older is waited for first.
abbrev Pids : Type 0
Pids = List ℕ × ℕ

abbrev wait_older : List ℕ → ℕ → ℤ × Pids
wait_older [] n = (minus_one, ([], n))
wait_older (c ∷ []) n = (pos c, ([], n))
wait_older (c ∷ d ∷ cs) n = (pos d, (c ∷ cs, n))

abbrev older_first : Process.System
older_first = record {
  State = Pids;
  fork = λ c (cs, n). (pos n, (n ∷ cs, n + 1));
  wait = λ (cs, n). wait_older cs n;
  sigterm = λ pid s. s;
  sleep_for = λ n s. s;
  now = λ s. (7, s);
  current_path = λ s. codes "/tmp";
  exists = λ p s. done true;
  is_directory = λ p s. done true;
  create_directories = λ p s. done s;
  remove = λ p s. done s;
  remove_all = λ p s. done s;
}

abbrev pids : List ℕ → List ℤ
pids [] = []
pids (c ∷ cs) = pos c ∷ pids cs

abbrev pids_of : Pids → List ℤ
pids_of s = pids s.0

wait_older-pids :
    (cs : List ℕ) (n : ℕ)
    → (wait_older cs n).0 ≢ minus_one
    → Perm (pids cs) ((wait_older cs n).0 ∷ pids_of (wait_older cs n).1)
wait_older-pids [] n h = absurd (h refl)
wait_older-pids (c ∷ []) n h = Perm.refl (pos c ∷ [])
wait_older-pids (c ∷ d ∷ cs) n h = Perm.swap (pos d) (pos c) (pids cs)

older_first-IsLawful : Process.IsLawful older_first pids_of
older_first-IsLawful = record {
  children-fork = λ c s h. refl;
  children-wait = λ s h. wait_older-pids s.0 s.1 h;
  children-sigterm = λ pid s. refl;
  children-sleep_for = λ n s. refl;
  children-now = λ s. refl;
  children-create_directories = λ p s h. cc;
  children-remove = λ p s h. cc;
  children-remove_all = λ p s h. cc;
}

wait_older_succeeds : (cs : List ℕ) (n : ℕ) → 0 < length (pids cs) → (wait_older cs n).0 ≢ minus_one
wait_older_succeeds [] n h = absurd (omega arith)
wait_older_succeeds (c ∷ []) n h = λ e. cc
wait_older_succeeds (c ∷ d ∷ cs) n h = λ e. cc

older_first-NeverFails : NeverFails older_first pids_of
older_first-NeverFails = record {
  forks = λ c s e. cc;
  waits = λ s h. wait_older_succeeds s.0 s.1 h;
}

abbrev no_file : Text → Bool
no_file name = false

abbrev argv : List Text
argv = codes "launcher" ∷ []

abbrev idle : Pids
idle = ([], 40)

abbrev left_over : Pids
left_over = (41 ∷ [], 42)

abbrev wrong_log : List Message
wrong_log = letting_run ∷ waited_wrong (pos 41) (pos 40) (pos 40) ∷ []

whole_run :
    main (run_trial older_first (run_gzip older_first)) no_file argv [] 3 (idle, [])
    ≡ done (left_over, wrong_log)
unfolding main parse_args parse_calls default_args groups_loop reps_loop for_le for_lt add_int ◌+ℤ◌
    run_trial finish_trial run_gzip timed remove_if_exists pin_of
whole_run = refl

older_first-run_gzip :
    (pin : ℤ) (s : Pids) → (r : TestRun × Pids) × (run_gzip older_first pin s ≡ done r)
unfolding run_gzip remove_if_exists
older_first-run_gzip pin s = let (run, s2) = timed older_first (gunzip pin) s in ((run, s2), refl)

no_options : parse_args no_file argv [] ≡ done default_args
unfolding parse_args parse_calls
no_options = refl

one_group : steps (pos 1) (pos 1) 1 < 3
unfolding steps
one_group = ground arith

main-wrong_waits_example :
    (t : Pids) × (log : List Message) × (main
        (run_trial older_first (run_gzip older_first))
        no_file
        argv
        []
        3
        (idle, [])
      ≡ done (t, log))
    × (length (pids_of t) ≡ length (pids_of idle) + wrong_waits log)
unfolding default_args ◌+ℤ◌
main-wrong_waits_example =
    main-wrong_waits older_first pids_of older_first-IsLawful older_first-NeverFails
      (run_gzip older_first)
      (run_gzip-KeepsCount older_first pids_of older_first-IsLawful older_first-NeverFails)
      older_first-run_gzip no_file argv [] 3 idle default_args 1 no_options refl (omega arith)
      (omega arith) (omega arith) (omega arith) one_group

abbrev good_log : List Message
good_log = cout_time 0 ∷ []

whole_interrupted :
    Interrupt.main older_first no_file argv [] 3 (idle, []) ≡ done (([], 42), good_log)
unfolding Interrupt.main interrupt_trial interrupted main parse_args parse_calls default_args
    groups_loop reps_loop for_le for_lt add_int ◌+ℤ◌ finish_trial remove_if_exists pin_of
whole_interrupted = refl

older_first-remove_if_exists :
    (path : Text) (s : Pids) → (t : Pids) × (remove_if_exists older_first path s ≡ done t)
unfolding remove_if_exists
older_first-remove_if_exists path s = (s, refl)

no_options_interrupted : Interrupt.parse_args no_file argv [] ≡ done default_args
unfolding Interrupt.parse_args
no_options_interrupted = no_options

main-run_trial_example :
    (t : Pids) × (log : List Message) × (Interrupt.main older_first no_file argv [] 3 (idle, [])
      ≡ done (t, log))
    × (length (pids_of t) ≡ length (pids_of idle) + wrong_waits log)
unfolding default_args ◌+ℤ◌
main-run_trial_example =
    main-run_trial older_first pids_of older_first-IsLawful older_first-NeverFails
      older_first-remove_if_exists no_file argv [] 3 idle default_args 1 no_options_interrupted refl
      (omega arith) (omega arith) (omega arith) (omega arith) one_group
