-- ===== src/Hackbench/Main/Ends.antt =====
-- Whom the last `reap_workers` of hackbench/hackbench.c has told to end, and for whom it has waited,
-- when `main` ends.
use linux_scheduler_comparis.Base.{
  ℕ, zero, suc, ◌+◌, ◌-◌, ◌*◌, ◌^◌, ◌≤◌, ◌<◌, ◌≡◌, ◌⊎◌, ap, subst, Bool, true, false, arith,
  if◌then◌else◌,
}
use linux_scheduler_comparis.Hackbench.Main.{
  Place, creating, scheduling, reading, timing, waking, jumped, jumped_on, reaping, before_kill,
  telling, awaiting, exited, World, has_exited, Step, Reach, here, next, start,
}

module _ (num_groups num_fds : ℕ) (fifo : Bool) where
  -- All workers are there, and no signal was caught.
  abbrev pub AllCreated : World → Type 0
  AllCreated w =
      (w.forked ≡ num_groups * (num_fds * 2))
      × (w.total_children ≡ num_groups * (num_fds * 2))
      × (w.signal_caught ≡ false)

  -- A signal may come, in a group or behind all of them.
  abbrev pub Interrupted : World → Type 0
  Interrupted w =
      (w.total_children ≤ w.forked)
      × (w.forked ≤ w.total_children + num_fds * 2)
      × ((w.timer_started ≡ false) ⊎ (w.forked ≡ w.total_children))

  -- What an end with status 0 leaves: the workers that it counted are awaited, and they are told if
  -- a signal was caught.
  abbrev pub Ended : World → Type 0
  Ended w =
      Interrupted w
      × (w.awaited ≡ w.total_children)
      × (w.told ≡ (if w.signal_caught then w.total_children else 0))
      × ((w.signal_caught ≡ true) ⊎ AllCreated w)

  abbrev pub AtPlace : World → Place → Type 0
  AtPlace w (creating i j) =
      (w.forked ≡ w.total_children + j)
      × (w.total_children ≡ i * (num_fds * 2))
      × (i ≤ num_groups)
      × (j ≤ num_fds * 2)
      × (i ≡ num_groups → j ≡ 0)
      × (w.signal_caught ≡ false)
      × (w.timer_started ≡ false)
  AtPlace w scheduling = AllCreated w × (w.timer_started ≡ false)
  AtPlace w (reading k) = AllCreated w × (w.timer_started ≡ false)
  AtPlace w timing = AllCreated w × (w.timer_started ≡ false)
  AtPlace w waking = AllCreated w
  AtPlace w jumped = Interrupted w × (w.signal_caught ≡ true)
  AtPlace w jumped_on = Interrupted w × (w.signal_caught ≡ true)
  AtPlace w reaping = Interrupted w × ((w.signal_caught ≡ true) ⊎ AllCreated w)
  AtPlace w (before_kill c zero) =
      Interrupted w
      × (c ≡ w.total_children)
      × (w.signal_caught ≡ true)
      × (w.told ≡ 0)
      × (w.awaited ≡ 0)
  AtPlace w (telling n c zero) =
      Interrupted w
      × (c ≡ w.total_children)
      × (w.signal_caught ≡ true)
      × (w.told ≡ n)
      × (w.awaited ≡ 0)
  AtPlace w (awaiting n c zero) =
      Interrupted w
      × (c ≡ w.total_children)
      × (w.told ≡ (if w.signal_caught then w.total_children else 0))
      × (w.awaited ≡ n)
      × ((w.signal_caught ≡ true) ⊎ AllCreated w)
  AtPlace w (exited zero) = Ended w
  AtPlace w (before_kill c (suc m)) = Interrupted w
  AtPlace w (telling n c (suc m)) = Interrupted w
  AtPlace w (awaiting n c (suc m)) = Interrupted w
  AtPlace w (exited (suc m)) = Unit

  -- A signal may come wherever `main` has not ended.
  going : (w : World) (p : Place) → has_exited p ≡ false → AtPlace w p → Interrupted w
  going w (creating i j) h a = ground arith
  going w scheduling h a = ground arith
  going w (reading k) h a = ground arith
  going w timing h a = ground arith
  going w waking h a = ground arith
  going w jumped h a = a.0
  going w jumped_on h a = a.0
  going w reaping h a = a.0
  going w (before_kill c zero) h a = a.0
  going w (before_kill c (suc m)) h a = a
  going w (telling n c zero) h a = a.0
  going w (telling n c (suc m)) h a = a
  going w (awaiting n c zero) h a = a.0
  going w (awaiting n c (suc m)) h a = a
  going w (exited status) h a = cc

  pub Step-AtPlace :
      {w v : World}
      → num_groups * (num_fds * 2) < 2 ^ 32
      → Step num_groups num_fds fifo w v
      → AtPlace w w.place
      → AtPlace v v.place
  Step-AtPlace {w} small (Step.create i j h p q e) a = ground arith
  Step-AtPlace {w} small (Step.create_fails i j h p q e) a = ground arith
  Step-AtPlace {w} small (Step.pipe_fails i j h p q e) a = ground arith
  Step-AtPlace {w} small (Step.end_group i j h p q e) a =
      let rest : num_groups ≡ i + 1 + (num_groups - i - 1) = omega arith in
      let product = ap (λ (t : ℕ). t * (num_fds * 2)) rest in ground (arith, product)
  Step-AtPlace {w} small (Step.end_groups i j h p e) a = ground arith
  Step-AtPlace {w} small (Step.schedule h e) a = ground arith
  Step-AtPlace {w} small (Step.schedule_fails h e) a = ground arith
  Step-AtPlace {w} small (Step.read k h p e) a = ground arith
  Step-AtPlace {w} small (Step.read_fails k h p e) a = ground arith
  Step-AtPlace {w} small (Step.end_reads k h p e) a = ground arith
  Step-AtPlace {w} small (Step.start_timer h e) a = ground arith
  Step-AtPlace {w} small (Step.wake h e) a = ground arith
  Step-AtPlace {w} small (Step.wake_fails h e) a = ground arith
  Step-AtPlace {w} small (Step.catch_int h p e) a =
      let (counted, few, timed) = going w w.place h a in ground arith
  Step-AtPlace {w} small (Step.catch_term h p e) a =
      let (counted, few, timed) = going w w.place h a in ground arith
  Step-AtPlace {w} small (Step.ignore_int h e) a = ground arith
  Step-AtPlace {w} small (Step.ignore_term h e) a = ground arith
  Step-AtPlace {w} small (Step.reap_last h e) a = ground arith
  Step-AtPlace {w} small (Step.kill_begins c zero h e) a = ground arith
  Step-AtPlace {w} small (Step.kill_begins c (suc m) h e) a = ground arith
  Step-AtPlace {w} small (Step.kill n c zero h p e) a = ground arith
  Step-AtPlace {w} small (Step.kill n c (suc m) h p e) a = ground arith
  Step-AtPlace {w} small (Step.kill_ends n c zero h p e) a = ground arith
  Step-AtPlace {w} small (Step.kill_ends n c (suc m) h p e) a = ground arith
  Step-AtPlace {w} small (Step.wait n c zero h p e) a = ground arith
  Step-AtPlace {w} small (Step.wait n c (suc m) h p e) a = ground arith
  Step-AtPlace {w} small (Step.exit n c zero h p e) a = ground arith
  Step-AtPlace {w} small (Step.exit n c (suc m) h p e) a = ground arith

  pub start-AtPlace : AtPlace start (creating 0 0)
  start-AtPlace = ground arith

  pub Reach-AtPlace :
      {w : World}
      → num_groups * (num_fds * 2) < 2 ^ 32
      → Reach num_groups num_fds fifo start w
      → AtPlace w w.place
  Reach-AtPlace small here = start-AtPlace
  Reach-AtPlace small (next r s) = Step-AtPlace small s (Reach-AtPlace small r)

  -- Where the number of all workers fits 32 bits, and `main` ends with status 0, wherever signals
  -- came, also inside of `reap_workers`: its last `reap_workers` has called `wait` once for each
  -- worker that it counted, and `kill` once for each of those if a signal was caught, and never
  -- otherwise; the workers that it forked but did not count are at most one group, and none once
  -- the timer was started; and if no signal was caught, all workers of all groups were forked and
  -- counted.
  pub Reach-Ended :
      {w : World}
      → num_groups * (num_fds * 2) < 2 ^ 32
      → Reach num_groups num_fds fifo start w
      → w.place ≡ exited 0
      → Ended w
  Reach-Ended {w} small r h = subst (AtPlace w) h (Reach-AtPlace small r)
