-- ===== src/Hackbench/Barrier.antt =====
-- How the processes of hackbench/hackbench.c wait for one another: `ready` in each worker, and in
-- `main` the loop that reads `readyfds` and the write to `wakefds`. Each step is one system call of
-- one process, and any process may take the next step. The calls succeed; a worker that has gone on
-- is at its loop over packets.
pub mod Order
use linux_scheduler_comparis.Base.{
  ℕ, zero, suc, ◌+◌, ◌≤◌, ◌<◌, ◌≡◌, Option, none, some, List, [], ◌∷◌, length, get_elem?,
}

-- Where a worker is in `ready`: before its write, before its `poll` returns, or behind it.
pub data Phase : Type 0 where
  fresh waiting going : Phase

-- The workers, the bytes in the two pipes, and what `main` has read and written.
pub record World : Type 0 where
  pub workers : List Phase
  pub ready_bytes : ℕ
  pub wake_bytes : ℕ
  pub main_read : ℕ
  pub main_woke : ℕ

abbrev pub set_worker : List Phase → ℕ → Phase → List Phase
set_worker [] i p = []
set_worker (x ∷ xs) zero p = p ∷ xs
set_worker (x ∷ xs) (suc i) p = x ∷ set_worker xs i p

-- `poll` leaves the byte where it is, so one byte wakes every worker.
pub data Step : World → World → Type 0 where
  write_ready :
      (w : World) (i : ℕ)
      → get_elem? w.workers i ≡ some fresh
      → Step w
          (record w { workers = set_worker w.workers i waiting; ready_bytes = w.ready_bytes + 1 })
  poll_wake :
      (w : World) (i : ℕ)
      → get_elem? w.workers i ≡ some waiting
      → 0 < w.wake_bytes
      → Step w (record w { workers = set_worker w.workers i going })
  read_ready :
      (w : World) (b : ℕ)
      → w.main_read < length w.workers
      → w.ready_bytes ≡ suc b
      → Step w (record w { ready_bytes = b; main_read = w.main_read + 1 })
  write_wake :
      (w : World)
      → w.main_read ≡ length w.workers
      → w.main_woke ≡ 0
      → Step w (record w { wake_bytes = w.wake_bytes + 1; main_woke = 1 })

pub data Reach (s : World) : World → Type 0 where
  here : Reach s s
  next : {t u : World} → Reach s t → Step t u → Reach s u

abbrev all_fresh : ℕ → List Phase
all_fresh zero = []
all_fresh (suc n) = fresh ∷ all_fresh n

-- Behind the loop that starts the groups.
unfoldable pub start : ℕ → World
start total_children = record {
  workers = all_fresh total_children;
  ready_bytes = 0;
  wake_bytes = 0;
  main_read = 0;
  main_woke = 0;
}
