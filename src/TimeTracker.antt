-- ===== src/TimeTracker.antt =====
-- time_tracker/time_tracker.cpp. The file system, the clock and the scheduler calls are parameters.
pub mod Args
pub mod Row
pub mod Cycle
