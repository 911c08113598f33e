-- ===== src/Toy/Hackbench/Barrier.antt =====
-- `ready` of toy/hackbench.c and the part of its `main` that answers it: a copy of those of
-- hackbench/hackbench.c. Threads wait for one another as processes do.
use linux_scheduler_comparis.Base.{ℕ}
use linux_scheduler_comparis.Hackbench.Barrier

unfoldable pub World : Type 0
World = Barrier.World

unfoldable pub Step : Barrier.World → Barrier.World → Type 0
Step = Barrier.Step

unfoldable pub start : ℕ → Barrier.World
start = Barrier.start
