-- ===== src/Toy/Hackbench/Reap/Started.antt =====
-- The loop of `main` in toy/hackbench.c that starts the groups: what it has counted, and how many
-- workers it reaps when one cannot be created.
use linux_scheduler_comparis.Base.{ℕ, ◌+◌, ◌≤◌, ◌<◌, ◌≡◌}
use linux_scheduler_comparis.Toy.Hackbench.Workers.{System}
use linux_scheduler_comparis.Toy.Hackbench.Workers.Created.{IsCount}
use linux_scheduler_comparis.Toy.Hackbench.Reap.Kept.{IsReaping}
use linux_scheduler_comparis.Toy.Hackbench.Reap.{Start, started, creating_failed}

module _ (S : System) (workers : S.State → ℕ) (C : IsCount S workers) where
  module _ (told awaited : S.State → ℕ) (R : IsReaping S told awaited) where
    -- From counts `t` of `kill` and `a` of `wait` and `pthread_join`: all workers and their exact
    -- number; or a failure that tells and awaits all workers but one at most.
    abbrev pub Starts : ℕ → ℕ → ℕ → Start S → Type 0
    Starts expected t a (started total tab s) =
        (total ≡ expected) × (workers s ≡ expected) × (told s ≡ t) × (awaited s ≡ a)
    Starts expected t a (creating_failed tab s) =
        (n : ℕ) × (told s ≡ t + n)
        × (awaited s ≡ a + n)
        × (n ≤ workers s)
        × (workers s ≤ n + 1)
        × (workers s < expected)
