-- ===== src/Hackbench/Flow.antt =====
-- The senders and receivers of one group of hackbench/hackbench.c behind `ready`, all at once: each
-- step is one system call of one process, or the end of one round of its loops, and any process may
-- take the next step. A pipe holds `capacity` bytes at most; a call that can move no byte waits. The
-- `unsigned int i` of a receiver wraps. A sum `done + ret` that is no `int` is undefined behaviour,
-- for which there is no step.
pub mod Sum
pub mod Inv
pub mod Progress
pub mod Ends
use linux_scheduler_comparis.Base.{
  ℕ, suc, ◌+◌, ◌-◌, ◌*◌, ◌%◌, ◌^◌, ◌≤◌, ◌<◌, ◌≡◌, ◌==◌, if◌then◌else◌,
}
use linux_scheduler_comparis.Base.Int.{int_max}

-- `i`, `j` and `done` of a sender.
pub record SenderAt : Type 0 where
  pub i : ℕ
  pub j : ℕ
  pub moved : ℕ

-- `i` and `done` of a receiver.
pub record ReceiverAt : Type 0 where
  pub i : ℕ
  pub moved : ℕ

-- The processes and the bytes in the pipes, by their numbers.
pub record World : Type 0 where
  pub senders : ℕ → SenderAt
  pub receivers : ℕ → ReceiverAt
  pub pipes : ℕ → ℕ

abbrev pub update {ℓ} : {A : Type ℓ} → (ℕ → A) → ℕ → A → ℕ → A
update f k a n = if n == k then a else f n

-- `ctx->num_packets = num_fds*(uint64_t)loops;`
abbrev pub num_packets : ℕ → ℕ → ℕ
num_packets num_fds loops = num_fds * loops

-- Packets that are not empty and fit `int`, and no more of them than `i` can count.
abbrev pub Sized : ℕ → ℕ → ℕ → Type 0
Sized num_fds loops datasize =
    (0 < datasize) × (datasize ≤ int_max) × (num_packets num_fds loops < 2 ^ 32)

module _ (num_fds loops datasize capacity : ℕ) where
  pub data Step (w v : World) : Type 0 where
    write :
        (k n : ℕ)
        → k < num_fds
        → (w.senders k).i < loops
        → (w.senders k).j < num_fds
        → 0 < n
        → (w.senders k).moved + n ≤ datasize
        → (w.senders k).moved + n ≤ int_max
        → w.pipes (w.senders k).j + n ≤ capacity
        → v ≡ record w {
          senders = update w.senders k (record (w.senders k) { moved = (w.senders k).moved + n });
          pipes = update w.pipes (w.senders k).j (w.pipes (w.senders k).j + n);
        }
        → Step w v
    -- `j++`
    next_fd :
        (k : ℕ)
        → k < num_fds
        → (w.senders k).i < loops
        → (w.senders k).j < num_fds
        → (w.senders k).moved ≡ datasize
        → v ≡ record w {
          senders =
              update w.senders k (record (w.senders k) { j = (w.senders k).j + 1; moved = 0 });
        }
        → Step w v
    -- `i++` of a sender
    next_loop :
        (k : ℕ)
        → k < num_fds
        → (w.senders k).i < loops
        → (w.senders k).j ≡ num_fds
        → v ≡ record w {
          senders = update w.senders k (record { i = (w.senders k).i + 1; j = 0; moved = 0 });
        }
        → Step w v
    read :
        (k n : ℕ)
        → k < num_fds
        → (w.receivers k).i < num_packets num_fds loops
        → 0 < n
        → (w.receivers k).moved + n ≤ datasize
        → (w.receivers k).moved + n ≤ int_max
        → n ≤ w.pipes k
        → v ≡ record w {
          receivers =
              update w.receivers k (record (w.receivers k) { moved = (w.receivers k).moved + n });
          pipes = update w.pipes k (w.pipes k - n);
        }
        → Step w v
    -- `i++` of a receiver
    next_packet :
        (k : ℕ)
        → k < num_fds
        → (w.receivers k).i < num_packets num_fds loops
        → (w.receivers k).moved ≡ datasize
        → v ≡ record w {
          receivers =
              update w.receivers k (record { i = ((w.receivers k).i + 1) % 2 ^ 32; moved = 0 });
        }
        → Step w v

  pub data Reach (w : World) : World → Type 0 where
    here : Reach w w
    next : {u v : World} → Reach w u → Step u v → Reach w v

abbrev pub start : World
start = record {
  senders = λ k. record { i = 0; j = 0; moved = 0 };
  receivers = λ k. record { i = 0; moved = 0 };
  pipes = λ k. 0;
}
