-- ===== src/Interrupt.antt =====
-- gzip/hackbench_interupt.cpp, which starts gzip first and hackbench beside it. The splitter, the
-- options and the loops of `main` are a copy of those of launcher/launcher.cpp, word for word.
pub mod Trial
pub mod Whole
use linux_scheduler_comparis.Base.{ℕ, Bool, List, Text}
use linux_scheduler_comparis.Base.Outcome.{Outcome}
use linux_scheduler_comparis.Getopt.{Call}
use linux_scheduler_comparis.Launcher.Split
use linux_scheduler_comparis.Launcher.Args
use linux_scheduler_comparis.Launcher.Sweep
use linux_scheduler_comparis.Launcher.Trial.{Message}
use linux_scheduler_comparis.Process.{System}
use linux_scheduler_comparis.Interrupt.Trial.{run_trial}

unfoldable pub string_to_vec_by_delim : Text → Text → Outcome (List Text)
string_to_vec_by_delim = Split.string_to_vec_by_delim

unfoldable pub parse_args : (Text → Bool) → List Text → List Call → Outcome Args.Args
parse_args = Args.parse_args

unfoldable pub main :
    (S : System)
    → (Text → Bool)
    → List Text
    → List Call
    → ℕ
    → S.State × List Message
    → Outcome (S.State × List Message)
main S opens argv calls fuel w = Sweep.main (run_trial S) opens argv calls fuel w
