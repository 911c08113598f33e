-- ===== src/Launcher.antt =====
-- launcher/launcher.cpp: the options, the sweep over group counts, and one trial.
pub mod Split
pub mod Args
pub mod Sweep
pub mod Trial
