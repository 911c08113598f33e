-- ===== src/SchedTracker.antt =====
-- time_tracker/sched_tracker.cpp. Its options and its `main` are those of
-- time_tracker/time_tracker.cpp, word for word; `retrieve_data` is its own.
pub mod Report
use linux_scheduler_comparis.Base.{ℕ, List, Text}
use linux_scheduler_comparis.Base.Outcome.{Outcome}
use linux_scheduler_comparis.Getopt.{Call}
use linux_scheduler_comparis.TimeTracker.Args
use linux_scheduler_comparis.TimeTracker.Cycle
use linux_scheduler_comparis.TimeTracker.Cycle.{System}

unfoldable pub parse_args : List Text → List Call → Outcome Args.Args
parse_args argv calls = Args.parse_args argv calls

unfoldable pub main :
    (S : System) → (S.State → S.State) → ℕ → List Text → List Call → S.State → Outcome (ℕ × S.State)
main S retrieve_data fuel argv calls s = Cycle.main S retrieve_data fuel argv calls s
