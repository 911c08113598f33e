-- ===== src/Toy/Hackbench/SetUp.antt =====
-- `main` of toy/hackbench.c up to its `setjmp`: the options, the pinning, the table and the two
-- descriptor pairs.
pub mod Packets
use linux_scheduler_comparis.Base.{ℕ, ◌*◌, Bool, List, Text, if◌then◌else◌}
use linux_scheduler_comparis.Base.Int.{ℤ, pos, minus_one, eqb_ℤ}
use linux_scheduler_comparis.Base.Outcome.{Outcome, done, exits, ◌>>=◌}
use linux_scheduler_comparis.Getopt.{Call}
use linux_scheduler_comparis.Hackbench.Workers.{u32}
use linux_scheduler_comparis.Toy.Hackbench.Options.{Options, process_options, adjust_loops}
use linux_scheduler_comparis.Toy.Hackbench.Workers.{System, fdpair}

-- What the rest of `main` starts from.
pub record Ready (S : System) : Type 0 where
  pub options : Options
  pub readyfds : ℕ × ℕ
  pub wakefds : ℕ × ℕ
  pub state : S.State

-- The table and the descriptors, for the options that are in force.
pub allocate : (S : System) → (ℕ → Bool) → Options → S.State → Outcome (Ready S)
allocate S calloc options s =
    if calloc (u32 (options.num_fds * 2 * options.num_groups))
    then (do
      (readyfds, s1) ← fdpair S options.use_pipes s
      (wakefds, s2) ← fdpair S options.use_pipes s1
      done (record { options = options; readyfds = readyfds; wakefds = wakefds; state = s2 }))
    else exits (pos 1)

-- `set_affinity` says which cores the system pins to, `calloc` which tables it gives.
unfoldable pub set_up :
    (S : System) → (ℤ → Bool) → (ℕ → Bool) → List Text → List Call → S.State → Outcome (Ready S)
unfolding allocate
set_up S set_affinity calloc argv calls s = do
  options ← process_options argv calls
  if eqb_ℤ options.core_to_pin (pos 0)
      then (if set_affinity (pos 0)
          then allocate S calloc (adjust_loops options) s
          else exits minus_one)
      else allocate S calloc (adjust_loops options) s
