-- ===== src/Tests.antt =====
-- Runs of the model, and the theorems at concrete data.
mod Machine
mod LauncherRuns
mod HackbenchRuns
mod OtherRuns
mod WholeRuns
mod SystemRuns
mod DatabaseRuns
mod HarnessRuns
mod ToyRuns
mod StepRuns
