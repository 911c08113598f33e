-- ===== src/Toy/Hackbench/Main/Signals.antt =====
-- What a signal finds in `main` of toy/hackbench.c, in either mode.
use linux_scheduler_comparis.Base.{
  ℕ, zero, suc, ◌*◌, ◌^◌, ◌≤◌, ◌<◌, ◌≡◌, ◌≢◌, Bool, true, false, arith,
}
use linux_scheduler_comparis.Hackbench.Main
use linux_scheduler_comparis.Hackbench.Main.{
  Place, Disposition, jumps, ends, creating, scheduling, reading, timing, waking, jumped, jumped_on,
  reaping, before_kill, telling, awaiting, exited,
}
use linux_scheduler_comparis.Hackbench.Main.Ends.{AtPlace, Step-AtPlace, start-AtPlace}
use linux_scheduler_comparis.Toy.Hackbench.Options.{Mode, threads, processes}
use linux_scheduler_comparis.Toy.Hackbench.Main.{
  World, reset_worker_signals, bytes_read, Step, by_main, worker_resets, worker_announces, kill_int,
  kill_term, Reach, here, next, start,
}

module _ (num_groups num_fds : ℕ) (fifo : Bool) where
  -- What holds of `main` at its place does not depend on what signals do.
  AtPlace-reset :
      (w : Main.World) (on_int on_term : Disposition) (p : Place)
      → AtPlace num_groups num_fds fifo w p
      → AtPlace num_groups num_fds fifo (record w { on_int = on_int; on_term = on_term }) p
  AtPlace-reset w on_int on_term (creating i j) a = a
  AtPlace-reset w on_int on_term scheduling a = a
  AtPlace-reset w on_int on_term (reading k) a = a
  AtPlace-reset w on_int on_term timing a = a
  AtPlace-reset w on_int on_term waking a = a
  AtPlace-reset w on_int on_term jumped a = a
  AtPlace-reset w on_int on_term jumped_on a = a
  AtPlace-reset w on_int on_term reaping a = a
  AtPlace-reset w on_int on_term (before_kill c zero) a = a
  AtPlace-reset w on_int on_term (before_kill c (suc n)) a = a
  AtPlace-reset w on_int on_term (telling k c zero) a = a
  AtPlace-reset w on_int on_term (telling k c (suc n)) a = a
  AtPlace-reset w on_int on_term (awaiting k c zero) a = a
  AtPlace-reset w on_int on_term (awaiting k c (suc n)) a = a
  AtPlace-reset w on_int on_term (exited zero) a = a
  AtPlace-reset w on_int on_term (exited (suc n)) a = a

  abbrev AtMain : World → Type 0
  AtMain w = AtPlace num_groups num_fds fifo w.main w.main.place

  Step-AtMain :
      (mode : Mode) {w v : World}
      → num_groups * (num_fds * 2) < 2 ^ 32
      → Step mode num_groups num_fds fifo w v
      → AtMain w
      → AtMain v
  Step-AtMain mode {w} small (by_main m alive s few e) a =
      rw e (Step-AtPlace num_groups num_fds fifo small s a)
  Step-AtMain mode {w} small (worker_resets alive few e) a = rw e (
      AtPlace-reset w.main (reset_worker_signals mode w.main.on_int)
        (reset_worker_signals mode w.main.on_term) w.main.place a)
  Step-AtMain mode {w} small (worker_announces alive few e) a = rw e a
  Step-AtMain mode {w} small (kill_int alive going d e) a = rw e a
  Step-AtMain mode {w} small (kill_term alive going d e) a = rw e a

  Reach-AtMain :
      (mode : Mode) {w : World}
      → num_groups * (num_fds * 2) < 2 ^ 32
      → Reach mode num_groups num_fds fifo start w
      → AtMain w
  Reach-AtMain mode small here = start-AtPlace num_groups num_fds fifo
  Reach-AtMain mode small (next r s) = Step-AtMain mode small s (Reach-AtMain mode small r)

  -- As processes: until one was caught, SIGINT jumps, and no signal ends the process.
  abbrev OnInt : Main.World → Type 0
  OnInt w = (w.signal_caught ≡ false → w.on_int ≡ jumps) × (w.on_int ≢ ends) × (w.on_term ≢ ends)

  Step-OnInt :
      (w m : Main.World)
      → Main.Step num_groups num_fds fifo w m
      → AtPlace num_groups num_fds fifo w w.place
      → OnInt w
      → OnInt m
  Step-OnInt w m (Main.Step.create i j h p q e) a o = ground arith
  Step-OnInt w m (Main.Step.create_fails i j h p q e) a o = ground arith
  Step-OnInt w m (Main.Step.pipe_fails i j h p q e) a o = ground arith
  Step-OnInt w m (Main.Step.end_group i j h p q e) a o = ground arith
  Step-OnInt w m (Main.Step.end_groups i j h p e) a o = ground arith
  Step-OnInt w m (Main.Step.schedule h e) a o = ground arith
  Step-OnInt w m (Main.Step.schedule_fails h e) a o = ground arith
  Step-OnInt w m (Main.Step.read k h p e) a o = ground arith
  Step-OnInt w m (Main.Step.read_fails k h p e) a o = ground arith
  Step-OnInt w m (Main.Step.end_reads k h p e) a o = ground arith
  Step-OnInt w m (Main.Step.start_timer h e) a o = ground arith
  Step-OnInt w m (Main.Step.wake h e) a o = ground arith
  Step-OnInt w m (Main.Step.wake_fails h e) a o = ground arith
  Step-OnInt w m (Main.Step.catch_int h p e) a o = ground arith
  Step-OnInt w m (Main.Step.catch_term h p e) a o = ground arith
  Step-OnInt w m (Main.Step.ignore_int h e) a o = ground arith
  Step-OnInt w m (Main.Step.ignore_term h e) a o = ground arith
  Step-OnInt w m (Main.Step.reap_last h e) a o = ground arith
  Step-OnInt w m (Main.Step.kill_begins c status h e) a o = ground arith
  Step-OnInt w m (Main.Step.kill n c status h p e) a o = ground arith
  Step-OnInt w m (Main.Step.kill_ends n c status h p e) a o = ground arith
  Step-OnInt w m (Main.Step.wait n c status h p e) a o = ground arith
  Step-OnInt w m (Main.Step.exit n c status h p e) a o = ground arith

  Reach-OnInt :
      {w : World}
      → num_groups * (num_fds * 2) < 2 ^ 32
      → Reach processes num_groups num_fds fifo start w
      → OnInt w.main × (w.killed ≡ false)
  Reach-OnInt small here = ground arith
  Reach-OnInt small (next {u} r (by_main m alive s few e)) =
      let (o, p) = Reach-OnInt small r in
      let o' = Step-OnInt u.main m s (Reach-AtMain processes small r) o in ground arith
  Reach-OnInt small (next r (worker_resets alive few e)) =
      let (o, p) = Reach-OnInt small r in ground arith
  Reach-OnInt small (next r (worker_announces alive few e)) =
      let (o, p) = Reach-OnInt small r in ground arith
  Reach-OnInt small (next r (kill_int alive going d e)) =
      let (o, p) = Reach-OnInt small r in ground arith
  Reach-OnInt small (next r (kill_term alive going d e)) =
      let (o, p) = Reach-OnInt small r in ground arith

  -- Before `main` may have been sent anywhere by a signal or a failure.
  abbrev early : Place → Bool
  early (creating i j) = true
  early scheduling = true
  early (reading k) = true
  early timing = true
  early p = false

  -- Where `main` has heard of a worker.
  abbrev Heard : Place → ℕ → Type 0
  Heard timing n = 0 < n
  Heard p n = Unit

  -- As threads.
  abbrev Reset : Main.World → Type 0
  Reset w = (w.on_int ≡ ends) × (w.on_term ≢ jumps) × (w.signal_caught ≡ false)

  record Inv (w : World) : Type 0 where
    heard : bytes_read w.main.place ≤ w.announced
    announced_few : w.announced ≤ w.resets
    reset_early :
        early w.main.place ≡ true → 0 < w.resets → (w.main.on_int ≡ ends) × (w.main.on_term ≡ ends)
    all_heard : Heard w.main.place w.announced
    timed : w.main.timer_started ≡ true → Reset w.main

  Step-Inv_main :
      (w : World) (m : Main.World)
      → 0 < num_groups * (num_fds * 2)
      → Main.Step num_groups num_fds fifo w.main m
      → bytes_read m.place ≤ w.announced
      → AtMain w
      → Inv w
      → Inv (record w { main = m })
  Step-Inv_main w m low (Main.Step.create i j h p q e) few a I = ground arith
  Step-Inv_main w m low (Main.Step.create_fails i j h p q e) few a I = ground arith
  Step-Inv_main w m low (Main.Step.pipe_fails i j h p q e) few a I = ground arith
  Step-Inv_main w m low (Main.Step.end_group i j h p q e) few a I = ground arith
  Step-Inv_main w m low (Main.Step.end_groups i j h p e) few a I = ground arith
  Step-Inv_main w m low (Main.Step.schedule h e) few a I = ground arith
  Step-Inv_main w m low (Main.Step.schedule_fails h e) few a I = ground arith
  Step-Inv_main w m low (Main.Step.read k h p e) few a I = ground arith
  Step-Inv_main w m low (Main.Step.read_fails k h p e) few a I = ground arith
  Step-Inv_main w m low (Main.Step.end_reads k h p e) few a I = ground arith
  Step-Inv_main w m low (Main.Step.start_timer h e) few a I = ground arith
  Step-Inv_main w m low (Main.Step.wake h e) few a I = ground arith
  Step-Inv_main w m low (Main.Step.wake_fails h e) few a I = ground arith
  Step-Inv_main w m low (Main.Step.catch_int h p e) few a I = ground arith
  Step-Inv_main w m low (Main.Step.catch_term h p e) few a I = ground arith
  Step-Inv_main w m low (Main.Step.ignore_int h e) few a I = ground arith
  Step-Inv_main w m low (Main.Step.ignore_term h e) few a I = ground arith
  Step-Inv_main w m low (Main.Step.reap_last h e) few a I = ground arith
  Step-Inv_main w m low (Main.Step.kill_begins c status h e) few a I = ground arith
  Step-Inv_main w m low (Main.Step.kill n c status h p e) few a I = ground arith
  Step-Inv_main w m low (Main.Step.kill_ends n c status h p e) few a I = ground arith
  Step-Inv_main w m low (Main.Step.wait n c status h p e) few a I = ground arith
  Step-Inv_main w m low (Main.Step.exit n c status h p e) few a I = ground arith

  Step-Inv :
      {w v : World}
      → 0 < num_groups * (num_fds * 2)
      → AtMain w
      → Step threads num_groups num_fds fifo w v
      → Inv w
      → Inv v
  Step-Inv {w} low a (by_main m alive s few e) I = rw e (Step-Inv_main w m low s few a I)
  Step-Inv {w} low a (worker_resets alive few e) I = ground arith
  Step-Inv {w} low a (worker_announces alive few e) I = ground arith
  Step-Inv {w} low a (kill_int alive going d e) I = ground arith
  Step-Inv {w} low a (kill_term alive going d e) I = ground arith

  Reach-Inv :
      {w : World}
      → 0 < num_groups * (num_fds * 2)
      → num_groups * (num_fds * 2) < 2 ^ 32
      → Reach threads num_groups num_fds fifo start w
      → Inv w
  Reach-Inv low small here = ground arith
  Reach-Inv low small (next r s) =
      Step-Inv low (Reach-AtMain threads small r) s (Reach-Inv low small r)

-- Processes: SIGINT jumps until a signal was caught, and none has ended the process. Threads: none was
-- caught, SIGINT ends the process, and SIGTERM does not jump.
abbrev pub Signals : Mode → World → Type 0
Signals processes w = (w.main.signal_caught ≡ false → w.main.on_int ≡ jumps) × (w.killed ≡ false)
Signals threads w =
    (w.main.on_int ≡ ends) × (w.main.on_term ≢ jumps) × (w.main.signal_caught ≡ false)

-- With at least one worker and a number of workers that fits 32 bits, in every state of
-- toy/hackbench.c that is reached once the timer was started, whatever the order of steps: if the
-- workers are processes, SIGINT is caught by `sigcatcher` as long as no signal was caught yet, and
-- no signal has ended `main`; if they are threads, no signal was caught, SIGINT ends the whole
-- process, and SIGTERM is not caught by `sigcatcher` either.
pub Reach-Signals :
    (mode : Mode) (num_groups num_fds : ℕ) (fifo : Bool) {w : World}
    → 0 < num_groups * (num_fds * 2)
    → num_groups * (num_fds * 2) < 2 ^ 32
    → Reach mode num_groups num_fds fifo start w
    → w.main.timer_started ≡ true
    → Signals mode w
Reach-Signals processes num_groups num_fds fifo low small r h =
    let (o, alive) = Reach-OnInt num_groups num_fds fifo small r in (o.0, alive)
Reach-Signals threads num_groups num_fds fifo low small r h =
    (Reach-Inv num_groups num_fds fifo low small r).timed h
