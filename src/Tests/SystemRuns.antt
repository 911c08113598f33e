-- ===== src/Tests/SystemRuns.antt =====
-- Runs of the HTTP client's two processes, of toy/launcher.c and of hackbench's `main`.
use linux_scheduler_comparis.Base.{
  ◌≡◌, ◌⊎◌, refl, true, false, List, [], ◌∷◌, ◌++◌, Text, codes, arith, if◌then◌else◌,
}
use linux_scheduler_comparis.Base.Int.{pos, ◌+ℤ◌, eqb_ℤ}
use linux_scheduler_comparis.Base.Outcome.{done, ◌>>=◌}
use linux_scheduler_comparis.Text.Number.{to_string}
use linux_scheduler_comparis.HttpClient.Session.{
  Reach, here, next, World, Child, Parent, ChildStep, ParentStep, by_child, by_parent, forked,
}
use linux_scheduler_comparis.HttpClient.Session.Spec.{Next, view}
use linux_scheduler_comparis.HttpClient.Session.Refines.{Step-refines}
use linux_scheduler_comparis.HttpClient.Session.Progress.{Quiet, Reach-Quiet}
use linux_scheduler_comparis.Loop.Each.{steps, up_to, below}
use linux_scheduler_comparis.Toy.Fib
use linux_scheduler_comparis.Toy.Fib.{pinned, computing, nth_is}
use linux_scheduler_comparis.Toy.Fib.Values.{fibonacci}
use linux_scheduler_comparis.Toy.Launcher
use linux_scheduler_comparis.Toy.Launcher.{Trial, Settings, fib_argv}
use linux_scheduler_comparis.Toy.Launcher.Plan.{printed, each_trial, main-each_trial}
use linux_scheduler_comparis.Toy.Launcher.Fibs.{main-fib_argv}
use linux_scheduler_comparis.Hackbench.Main
use linux_scheduler_comparis.Hackbench.Main.{start}
use linux_scheduler_comparis.Hackbench.Main.Ends.{Ended, Reach-Ended}

-- Both processes up to the parent's reading of the clock.
abbrev ready_world : World
ready_world = record (forked 5 2 64) { parent = Parent.reading_clock; child = Child.receiving }

to_ready : Reach (forked 5 2 64) ready_world
to_ready =
    next
      (next
        (next
          (next
            (next
              (next
                (next
                  (next
                    (next
                      (next (next here (by_child (ChildStep.pin refl refl)))
                        (by_child (ChildStep.schedule refl refl)))
                      (by_child (ChildStep.close_ends refl refl)))
                    (by_parent (ParentStep.pin refl refl)))
                  (by_parent (ParentStep.schedule refl refl)))
                (by_parent (ParentStep.close_ends refl refl)))
              (by_parent (ParentStep.write_start refl refl refl)))
            (by_child (ChildStep.read_start _ _ refl refl refl)))
          (by_child (ChildStep.write_ready refl refl refl)))
        (by_parent (ParentStep.read_ready _ _ refl refl refl)))
      (by_parent (ParentStep.check refl refl))

abbrev sending_world : World
sending_world = record ready_world { parent = Parent.sending 5 }

Step-refines_example :
    (view ready_world ≡ view sending_world) ⊎ Next (view ready_world) (view sending_world)
Step-refines_example = Step-refines to_ready (by_parent (ParentStep.read_clock refl refl))

Reach-Quiet_example :
    Quiet ready_world ⊎ ((v : World) × (ChildStep ready_world v ⊎ ParentStep ready_world v))
Reach-Quiet_example = Reach-Quiet to_ready

abbrev noting : Trial (List Text)
noting pairs fib_num pin log = log ++ pairs ∷ fib_num ∷ []

abbrev settings : Settings
settings = record {
  min_hackbench_pairs = pos 1;
  max_hackbench_pairs = pos 5;
  hackbench_pairs_step_size = pos 2;
  min_fib_number = pos 30;
  max_fib_number = pos 40;
  fib_number_step_size = pos 5;
  num_reps = pos 3;
  pin_to_core = pos 1;
}

main-each_trial_example : Launcher.main noting 9 9 (printed (codes "launcher") settings) [] ≡ (
    each_trial noting
      (pos 1)
      (up_to (pos 1) (pos 5) 2)
      (up_to (pos 30) (pos 40) 5)
      (below (pos 3))
      []
    >>= λ w'. done (pos 0, w'))
main-each_trial_example =
    main-each_trial noting (codes "launcher") settings 2 5 9 9 [] (omega arith) refl refl
      (omega arith) (omega arith) (unfold ◌+ℤ◌ in omega arith) (unfold ◌+ℤ◌ in omega arith)
      (unfold steps in ground arith) (unfold steps in ground arith)

main-fib_argv_example :
    Fib.main (λ core. true) 40 (fib_argv (to_string (pos 30)) (pos 2))
    ≡ done (
      pos 0,
      (if eqb_ℤ (pos 2) (pos 0) then [] else pinned (pos 0) ∷ [])
          ++ (computing (pos 30) ∷ nth_is (pos 30) (pos (fibonacci 30)) ∷ []),
    )
main-fib_argv_example = main-fib_argv (λ core. true) 40 29 (pos 2) (omega arith) (omega arith) refl

-- One group of one pair, interrupted behind its first worker, which nobody tells to end.
abbrev cut_short : Main.World
cut_short = record start {
  place = Main.exited 0;
  forked = 1;
  signal_caught = true;
  on_int = Main.ignored;
  on_term = Main.ignored;
}

to_cut_short : Main.Reach 1 1 false start cut_short
to_cut_short =
    Main.next
      (Main.next
        (Main.next
          (Main.next
            (Main.next
              (Main.next
                (Main.next
                  (Main.next Main.here (Main.Step.create 0 0 refl (omega arith) (omega arith) refl))
                  (Main.Step.catch_int refl refl refl))
                (Main.Step.ignore_int refl refl))
              (Main.Step.ignore_term refl refl))
            (Main.Step.reap_last refl refl))
          (Main.Step.kill_begins 0 0 refl refl))
        (Main.Step.kill_ends 0 0 0 refl refl refl))
      (Main.Step.exit 0 0 0 refl refl refl)

Reach-Ended_example : Ended 1 1 false cut_short
Reach-Ended_example = Reach-Ended 1 1 false (omega arith) to_cut_short refl
