-- ===== src/Toy/Hackbench/Main.antt =====
-- `main` of toy/hackbench.c behind `setjmp`, with its workers' `reset_worker_signals`. The steps of
-- `main` itself are those of hackbench/hackbench.c. A thread that resets the signals resets them for
-- the whole process; a forked process, for itself only. A signal is taken by the thread of `main`.
pub mod Signals
use linux_scheduler_comparis.Base.{ℕ, ◌+◌, ◌≤◌, ◌<◌, ◌≡◌, Bool, true, false}
use linux_scheduler_comparis.Hackbench.Main
use linux_scheduler_comparis.Hackbench.Main.{Place, reading, has_exited, Disposition, ends}
use linux_scheduler_comparis.Toy.Hackbench.Options.{Mode, threads, processes}

pub record World : Type 0 where
  pub main : Main.World
  -- workers behind `reset_worker_signals`, and behind the write of `ready`
  pub resets : ℕ
  pub announced : ℕ
  pub killed : Bool

-- `signal(…, SIG_DFL)` in a worker: what the signal does to the process of `main` then.
abbrev pub reset_worker_signals : Mode → Disposition → Disposition
reset_worker_signals threads d = ends
reset_worker_signals processes d = d

-- The bytes of `readyfds` that `main` has taken in its loop over them.
abbrev pub bytes_read : Place → ℕ
bytes_read (reading k) = k
bytes_read p = 0

module _ (mode : Mode) (num_groups num_fds : ℕ) (fifo : Bool) where
  pub data Step (w v : World) : Type 0 where
    by_main :
        (m : Main.World)
        → w.killed ≡ false
        → Main.Step num_groups num_fds fifo w.main m
        → bytes_read m.place ≤ w.announced
        → v ≡ record w { main = m }
        → Step w v
    worker_resets :
        w.killed ≡ false
        → w.resets < w.main.forked
        → v ≡ record w {
          resets = w.resets + 1;
          main = record (w.main) {
            on_int = reset_worker_signals mode w.main.on_int;
            on_term = reset_worker_signals mode w.main.on_term;
          };
        }
        → Step w v
    worker_announces :
        w.killed ≡ false
        → w.announced < w.resets
        → v ≡ record w { announced = w.announced + 1 }
        → Step w v
    kill_int :
        w.killed ≡ false
        → has_exited w.main.place ≡ false
        → w.main.on_int ≡ ends
        → v ≡ record w { killed = true }
        → Step w v
    kill_term :
        w.killed ≡ false
        → has_exited w.main.place ≡ false
        → w.main.on_term ≡ ends
        → v ≡ record w { killed = true }
        → Step w v

  pub data Reach (w : World) : World → Type 0 where
    here : Reach w w
    next : {u v : World} → Reach w u → Step u v → Reach w v

-- Behind `setjmp`.
abbrev pub start : World
start = record { main = Main.start; resets = 0; announced = 0; killed = false }
