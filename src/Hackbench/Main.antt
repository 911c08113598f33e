-- ===== src/Hackbench/Main.antt =====
-- `main` of hackbench/hackbench.c behind `setjmp`, with `reap_workers` call by call and the signals
-- that `sigcatcher` catches: one may come between any two steps, as long as it is not ignored. Of a
-- group only its workers are seen: a step is one successful `create_worker`, or a failure. The
-- workers are counted, in the order of `child_tab`. Behind a `longjmp` the locals of `main` are taken
-- to keep their values, as `volatile` would have them.
pub mod Ends
use linux_scheduler_comparis.Base.{
  ℕ, ◌+◌, ◌-◌, ◌*◌, ◌%◌, ◌^◌, ◌<◌, ◌≡◌, Bool, true, false, if◌then◌else◌,
}

-- Where `main` is: in a group with some of its workers created, before `sched_setscheduler`, with
-- some bytes read, before the two calls that start the senders, behind the `longjmp`, with SIGINT
-- ignored there, before the last `reap_workers`; in a `reap_workers(child_tab, totchld, dokill)`
-- before it ignores SIGTERM, with some workers told, or with some calls of `wait` made, each with
-- `totchld` and the status that follows; or at its end with the status 0 or 1.
pub data Place : Type 0 where
  creating : ℕ → ℕ → Place
  scheduling : Place
  reading : ℕ → Place
  timing waking jumped jumped_on reaping : Place
  before_kill : ℕ → ℕ → Place
  telling awaiting : ℕ → ℕ → ℕ → Place
  exited : ℕ → Place

-- What a signal does: `sigcatcher`, nothing, or the end of the process (`SIG_DFL`).
pub data Disposition : Type 0 where
  jumps ignored ends : Disposition

pub record World : Type 0 where
  pub place : Place
  -- workers that were forked
  pub forked : ℕ
  pub total_children : ℕ
  pub signal_caught : Bool
  pub on_int : Disposition
  pub on_term : Disposition
  -- calls of `kill` and of `wait` in the last `reap_workers` so far
  pub told : ℕ
  pub awaited : ℕ
  pub timer_started : Bool

-- The call of `reap_workers(child_tab, totchld, dokill)`, with the status of the `exit` behind it.
abbrev pub reap : World → ℕ → Bool → ℕ → World
reap w totchld dokill status = record w {
  place = if dokill then before_kill totchld status else awaiting 0 totchld status;
  told = 0;
  awaited = 0;
}

abbrev pub has_exited : Place → Bool
has_exited (exited status) = true
has_exited p = false

module _ (num_groups num_fds : ℕ) (fifo : Bool) where
  pub data Step (w v : World) : Type 0 where
    create :
        (i j : ℕ)
        → w.place ≡ creating i j
        → i < num_groups
        → j < num_fds * 2
        → v ≡ record w { place = creating i (j + 1); forked = w.forked + 1 }
        → Step w v
    -- `group` returns one less than it has created
    create_fails :
        (i j : ℕ)
        → w.place ≡ creating i j
        → i < num_groups
        → j < num_fds * 2
        → v ≡ reap w ((w.total_children + (j - 1)) % 2 ^ 32) true 1
        → Step w v
    pipe_fails :
        (i j : ℕ)
        → w.place ≡ creating i j
        → i < num_groups
        → j < num_fds
        → v ≡ record w { place = exited 1 }
        → Step w v
    end_group :
        (i j : ℕ)
        → w.place ≡ creating i j
        → i < num_groups
        → j ≡ num_fds * 2
        → v ≡ record w {
          place = creating (i + 1) 0;
          total_children = (w.total_children + num_fds * 2) % 2 ^ 32;
        }
        → Step w v
    end_groups :
        (i j : ℕ)
        → w.place ≡ creating i j
        → i ≡ num_groups
        → v ≡ record w { place = if fifo then scheduling else reading 0 }
        → Step w v
    schedule : w.place ≡ scheduling → v ≡ record w { place = reading 0 } → Step w v
    schedule_fails : w.place ≡ scheduling → v ≡ record w { place = exited 1 } → Step w v
    read :
        (k : ℕ)
        → w.place ≡ reading k
        → k < w.total_children
        → v ≡ record w { place = reading (k + 1) }
        → Step w v
    read_fails :
        (k : ℕ)
        → w.place ≡ reading k
        → k < w.total_children
        → v ≡ reap w w.total_children true 1
        → Step w v
    end_reads :
        (k : ℕ)
        → w.place ≡ reading k
        → k ≡ w.total_children
        → v ≡ record w { place = timing }
        → Step w v
    start_timer :
        w.place ≡ timing → v ≡ record w { place = waking; timer_started = true } → Step w v
    wake : w.place ≡ waking → v ≡ record w { place = reaping } → Step w v
    wake_fails : w.place ≡ waking → v ≡ reap w w.total_children true 1 → Step w v
    -- `sigcatcher`
    catch_int :
        has_exited w.place ≡ false
        → w.on_int ≡ jumps
        → v ≡ record w { place = jumped; signal_caught = true; on_int = ignored }
        → Step w v
    catch_term :
        has_exited w.place ≡ false
        → w.on_term ≡ jumps
        → v ≡ record w { place = jumped; signal_caught = true; on_term = ignored }
        → Step w v
    -- behind the `longjmp`
    ignore_int : w.place ≡ jumped → v ≡ record w { place = jumped_on; on_int = ignored } → Step w v
    ignore_term :
        w.place ≡ jumped_on → v ≡ record w { place = reaping; on_term = ignored } → Step w v
    reap_last : w.place ≡ reaping → v ≡ reap w w.total_children w.signal_caught 0 → Step w v
    -- in `reap_workers`
    kill_begins :
        (c status : ℕ)
        → w.place ≡ before_kill c status
        → v ≡ record w { place = telling 0 c status; on_term = ignored }
        → Step w v
    kill :
        (n c status : ℕ)
        → w.place ≡ telling n c status
        → n < c
        → v ≡ record w { place = telling (n + 1) c status; told = w.told + 1 }
        → Step w v
    kill_ends :
        (n c status : ℕ)
        → w.place ≡ telling n c status
        → n ≡ c
        → v ≡ record w { place = awaiting 0 c status }
        → Step w v
    wait :
        (n c status : ℕ)
        → w.place ≡ awaiting n c status
        → n < c
        → v ≡ record w { place = awaiting (n + 1) c status; awaited = w.awaited + 1 }
        → Step w v
    exit :
        (n c status : ℕ)
        → w.place ≡ awaiting n c status
        → n ≡ c
        → v ≡ record w { place = exited status }
        → Step w v

  pub data Reach (w : World) : World → Type 0 where
    here : Reach w w
    next : {u v : World} → Reach w u → Step u v → Reach w v

-- Behind `setjmp`.
abbrev pub start : World
start = record {
  place = creating 0 0;
  forked = 0;
  total_children = 0;
  signal_caught = false;
  on_int = jumps;
  on_term = jumps;
  told = 0;
  awaited = 0;
  timer_started = false;
}
