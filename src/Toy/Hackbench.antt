-- ===== src/Toy/Hackbench.antt =====
-- toy/hackbench.c, which runs its workers as processes or as threads, over socket pairs or pipes.
-- hackbench/hackbench.c has been made from it; what the two share word for word is that model.
pub mod Options
pub mod Workers
pub mod Reap
pub mod SetUp
pub mod Barrier
pub mod Pump
pub mod Main
