-- ===== src/Process.antt =====
-- The operating system as the launchers see it: its calls over an unknown state, and what is
-- relied on. Time is in nanoseconds of the steady clock, and a pid of -1 is a failed call.
pub mod Count
use mathlib.Core.List.{Perm}
use linux_scheduler_comparis.Base.{ℕ, Bool, Option, List, ◌∷◌, ◌≡◌, ◌≢◌, Text}
use linux_scheduler_comparis.Base.Int.{ℤ, minus_one}
use linux_scheduler_comparis.Base.Outcome.{Outcome, done}

-- What a forked child runs: `sched_setaffinity` to a core, if one is given, then `execl`.
pub record Child : Type 0 where
  pub pin : Option ℤ
  pub program : Text
  pub arguments : List Text

-- How a child goes on: as the new program, or at an end with a status.
pub data ChildEnd : Type 0 where
  execs : Text → List Text → ChildEnd
  exited : ℤ → ChildEnd

pub record System : Type 1 where
  pub State : Type 0
  pub fork : Child → State → ℤ × State
  pub wait : State → ℤ × State
  pub sigterm : ℤ → State → State
  pub sleep_for : ℕ → State → State
  pub now : State → ℕ × State
  -- `std::filesystem`, which may throw
  pub current_path : State → Text
  pub exists : Text → State → Outcome Bool
  pub is_directory : Text → State → Outcome Bool
  pub create_directories : Text → State → Outcome State
  pub remove : Text → State → Outcome State
  pub remove_all : Text → State → Outcome State

-- The children that are not waited for yet: `fork` adds one and `wait` takes one.
pub record IsLawful (S : System) (children : S.State → List ℤ) : Type 0 where
  pub children-fork :
      (c : Child) (s : S.State)
      → (S.fork c s).0 ≢ minus_one
      → children (S.fork c s).1 ≡ (S.fork c s).0 ∷ children s
  pub children-wait :
      (s : S.State)
      → (S.wait s).0 ≢ minus_one
      → Perm (children s) ((S.wait s).0 ∷ children (S.wait s).1)
  pub children-sigterm : (pid : ℤ) (s : S.State) → children (S.sigterm pid s) ≡ children s
  pub children-sleep_for : (n : ℕ) (s : S.State) → children (S.sleep_for n s) ≡ children s
  pub children-now : (s : S.State) → children (S.now s).1 ≡ children s
  pub children-create_directories :
      (p : Text) (s : S.State) {t : S.State}
      → S.create_directories p s ≡ done t
      → children t ≡ children s
  pub children-remove :
      (p : Text) (s : S.State) {t : S.State} → S.remove p s ≡ done t → children t ≡ children s
  pub children-remove_all :
      (p : Text) (s : S.State) {t : S.State} → S.remove_all p s ≡ done t → children t ≡ children s

-- What `run_prog` returns: launcher/test_prog_harness.h.
pub record TestRun : Type 0 where
  pub spawned : ℤ
  pub waited : ℤ
  pub nanoseconds : ℕ

-- The interface that launcher/launcher.cpp is linked against.
abbrev pub RunProg : System → Type 0
RunProg S = ℤ → S.State → Outcome (TestRun × S.State)

-- Its contract: one child is forked and one child is waited for.
abbrev pub IsTestProgram : (S : System) → (S.State → List ℤ) → RunProg S → Type 0
IsTestProgram S children run_prog =
    (pin : ℤ) (s : S.State) (run : TestRun) (t : S.State)
    → run_prog pin s ≡ done (run, t)
    → run.spawned ≢ minus_one
    → run.waited ≢ minus_one
    → Perm (run.spawned ∷ children s) (run.waited ∷ children t)
