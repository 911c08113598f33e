-- ===== src/Tests/StepRuns.antt =====
-- Runs of the step relations of toy/hackbench.c and of a group's packets.
use linux_scheduler_comparis.Base.{◌⊎◌, ◌*◌, ◌≤◌, ◌+◌, refl, true, false, arith}
use linux_scheduler_comparis.Hackbench.Main
use linux_scheduler_comparis.Toy.Hackbench.Main.{
  World, by_main, worker_resets, worker_announces, Reach, here, next, start,
}
use linux_scheduler_comparis.Toy.Hackbench.Main.Signals.{Signals, Reach-Signals}
use linux_scheduler_comparis.Toy.Hackbench.Options.{threads}
use linux_scheduler_comparis.Hackbench.Flow
use linux_scheduler_comparis.Hackbench.Flow.Progress.{Delivered}
use linux_scheduler_comparis.Hackbench.Flow.Ends.{round, steps_of, Reach-Delivered}

-- One group of one pair of threads, with the timer started.
abbrev timed : World
timed = record start {
  main = record Main.start {
    place = Main.waking;
    forked = 2;
    total_children = 2;
    timer_started = true;
    on_int = Main.ends;
    on_term = Main.ends;
  };
  resets = 2;
  announced = 2;
}

to_timed : Reach threads 1 1 false start timed
to_timed =
    next
      (next
        (next
          (next
            (next
              (next
                (next
                  (next
                    (next
                      (next
                        (next
                          (next here (
                            by_main
                              (record Main.start {
                                place = Main.creating 0 1;
                                forked = 1;
                                total_children = 0;
                              })
                              refl (Main.Step.create 0 0 refl (omega arith) (omega arith) refl)
                              (omega arith) refl))
                          (by_main
                            (record Main.start {
                              place = Main.creating 0 2;
                              forked = 2;
                              total_children = 0;
                            })
                            refl (Main.Step.create 0 1 refl (omega arith) (omega arith) refl)
                            (omega arith) refl))
                        (worker_resets refl (omega arith) refl))
                      (worker_resets refl (omega arith) refl))
                    (worker_announces refl (omega arith) refl))
                  (worker_announces refl (omega arith) refl))
                (by_main
                  (record Main.start {
                    place = Main.creating 1 0;
                    forked = 2;
                    total_children = 2;
                    on_int = Main.ends;
                    on_term = Main.ends;
                  })
                  refl (Main.Step.end_group 0 2 refl (omega arith) refl refl) (omega arith) refl))
              (by_main
                (record Main.start {
                  place = Main.reading 0;
                  forked = 2;
                  total_children = 2;
                  on_int = Main.ends;
                  on_term = Main.ends;
                })
                refl (Main.Step.end_groups 1 0 refl refl refl) (omega arith) refl))
            (by_main
              (record Main.start {
                place = Main.reading 1;
                forked = 2;
                total_children = 2;
                on_int = Main.ends;
                on_term = Main.ends;
              })
              refl (Main.Step.read 0 refl (omega arith) refl) (omega arith) refl))
          (by_main
            (record Main.start {
              place = Main.reading 2;
              forked = 2;
              total_children = 2;
              on_int = Main.ends;
              on_term = Main.ends;
            })
            refl (Main.Step.read 1 refl (omega arith) refl) (omega arith) refl))
        (by_main
          (record Main.start {
            place = Main.timing;
            forked = 2;
            total_children = 2;
            on_int = Main.ends;
            on_term = Main.ends;
          })
          refl (Main.Step.end_reads 2 refl refl refl) (omega arith) refl))
      (by_main
        (record Main.start {
          place = Main.waking;
          forked = 2;
          total_children = 2;
          timer_started = true;
          on_int = Main.ends;
          on_term = Main.ends;
        })
        refl (Main.Step.start_timer refl refl) (omega arith) refl)

Reach-Signals_example : Signals threads timed
Reach-Signals_example = Reach-Signals threads 1 1 false (omega arith) (omega arith) to_timed refl

-- One sender that writes a byte of its packet of two, which the receiver reads.
abbrev written : Flow.World
written = record Flow.start {
  senders = Flow.update Flow.start.senders 0 (record { i = 0; j = 0; moved = 1 });
  pipes = Flow.update Flow.start.pipes 0 1;
}

abbrev one_read : Flow.World
one_read = record written {
  receivers = Flow.update written.receivers 0 (record { i = 0; moved = 1 });
  pipes = Flow.update written.pipes 0 0;
}

to_one_read : Flow.Reach 1 1 2 1 Flow.start one_read
to_one_read =
    Flow.next
      (Flow.next Flow.here (
        Flow.Step.write 0 1 (omega arith) (omega arith) (omega arith) (omega arith) (omega arith)
          (omega arith) (omega arith) refl))
      (Flow.Step.read 0 1 (omega arith) (omega arith) (omega arith) (omega arith) (omega arith)
        (omega arith) refl)

Reach-Delivered_example :
    (steps_of 1 1 2 1 to_one_read ≤ 1 * (1 * round 1 1 2 1) + 1 * (1 * 1 * (2 + 1)))
    × (Delivered 1 1 2 1 one_read ⊎ ((v : Flow.World) × Flow.Step 1 1 2 1 one_read v))
Reach-Delivered_example =
    Reach-Delivered 1 1 2 1 (omega arith) (omega arith) (omega arith) (omega arith) to_one_read
