-- ===== src/Toy/Hackbench/Pump.antt =====
-- `sender` and `receiver` of toy/hackbench.c behind `ready`: their loops are a copy of those of
-- hackbench/hackbench.c.
use linux_scheduler_comparis.Base.{ℕ, List}
use linux_scheduler_comparis.Base.Outcome.{Outcome}
use linux_scheduler_comparis.Hackbench.Pump
use linux_scheduler_comparis.Hackbench.Pump.{Pipes}

unfoldable pub sender : (P : Pipes) → ℕ → ℕ → ℕ → List ℕ → P.State → Outcome P.State
sender = Pump.sender

unfoldable pub receiver : (P : Pipes) → ℕ → ℕ → ℕ → ℕ → ℕ → ℕ → P.State → Outcome P.State
receiver = Pump.receiver
