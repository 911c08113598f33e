-- ===== src/Hackbench.antt =====
-- hackbench/hackbench.c: its options, how it starts and ends its workers, what they send and
-- receive, and how they wait for one another.
pub mod SetUp
pub mod Main
pub mod Options
pub mod Workers
pub mod Pump
pub mod Flow
pub mod Barrier
