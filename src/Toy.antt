-- ===== src/Toy.antt =====
-- The toy benchmark: toy/fib.cpp, toy/launcher.c and toy/hackbench.c.
pub mod Fib
pub mod Hackbench
pub mod Launcher
