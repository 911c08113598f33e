-- ===== src/Toy/Hackbench/Workers/Created.antt =====
-- How many workers `group` of toy/hackbench.c has created, against the number it returns.
use linux_scheduler_comparis.Base.{
  ℕ, ◌+◌, ◌-◌, ◌*◌, ◌^◌, ◌≤◌, ◌<◌, ◌≡◌, Bool, true, false, some, arith, subst, sym, refl, ◌∙◌,
  Bool-cases, inl, inr, if◌then◌else◌,
}
use linux_scheduler_comparis.Base.Int.{ℤ, pos, minus_one, eqb_ℤ}
use linux_scheduler_comparis.Base.Outcome.{done, ◌>>=◌, >>=-eq-done, done-injective}
use linux_scheduler_comparis.Hackbench.Workers
use linux_scheduler_comparis.Hackbench.Workers.{Worker}
use linux_scheduler_comparis.Hackbench.Workers.Created
use linux_scheduler_comparis.Hackbench.Workers.Created.{Returns}
use linux_scheduler_comparis.Hackbench.Workers.Ends
use linux_scheduler_comparis.Toy.Hackbench.Options.{Mode, threads, processes}
use linux_scheduler_comparis.Toy.Hackbench.Workers.{
  System, Table, start_worker, open_pair, close_in, group,
}
use linux_scheduler_comparis.Toy.Hackbench.Workers.Same.{
  as_processes, cut, outcome, group-as_processes,
}

-- A count of the workers so far, processes and threads: a successful `fork` or `pthread_create` adds
-- one, and nothing else changes it.
pub record IsCount (S : System) (workers : S.State → ℕ) : Type 0 where
  pub workers-fork :
      (w : Worker) (s : S.State)
      → workers (S.fork w s).1
        ≡ (if eqb_ℤ (S.fork w s).0 minus_one then workers s else workers s + 1)
  pub workers-pthread_create :
      (w : Worker) (s : S.State)
      → workers (S.pthread_create w s).2
        ≡ (if (S.pthread_create w s).0 then workers s + 1 else workers s)
  pub workers-pthread_attr_init : (s : S.State) → workers (S.pthread_attr_init s).1 ≡ workers s
  pub workers-pthread_attr_setstacksize :
      (s : S.State) → workers (S.pthread_attr_setstacksize s).1 ≡ workers s
  pub workers-malloc : (s : S.State) → workers (S.malloc s).1 ≡ workers s
  pub workers-pipe : (s : S.State) → workers (S.pipe s).1 ≡ workers s
  pub workers-socketpair : (s : S.State) → workers (S.socketpair s).1 ≡ workers s
  pub workers-close : (fd : ℕ) (s : S.State) → workers (S.close fd s) ≡ workers s
  pub workers-kill : (pid : ℤ) (s : S.State) → workers (S.kill pid s) ≡ workers s
  pub workers-ignore_sigterm : (s : S.State) → workers (S.ignore_sigterm s) ≡ workers s
  pub workers-wait : (s : S.State) → workers (S.wait s).1 ≡ workers s
  pub workers-pthread_join : (t : ℕ) (s : S.State) → workers (S.pthread_join t s).1 ≡ workers s

module _ (S : System) (workers : S.State → ℕ) (C : IsCount S workers) where
  start_worker-workers :
      (mode : Mode) (w : Worker) (s : S.State)
      → workers (start_worker S mode w s).2
        ≡ (if (start_worker S mode w s).0 then workers s else workers s + 1)
  unfolding start_worker
  start_worker-workers processes w s = C.workers-fork w s
  start_worker-workers threads w s =
      let s1 = (S.pthread_attr_init s).1 in
      let s2 = (S.pthread_attr_setstacksize s1).1 in
      ground (
        arith,
        C.workers-pthread_attr_init s,
        C.workers-pthread_attr_setstacksize s1,
        C.workers-pthread_create w s2,
      )

  as_processes-close :
      (mode : Mode) (fd : ℕ) (s : S.State) → workers (close_in S mode fd s) ≡ workers s
  as_processes-close processes fd s = C.workers-close fd s
  as_processes-close threads fd s = refl

  as_processes-pipe :
      (use_pipes : Bool) (s : S.State) → workers (open_pair S use_pipes s).1 ≡ workers s
  as_processes-pipe true s = C.workers-pipe s
  as_processes-pipe false s = C.workers-socketpair s

  as_processes-fork :
      (mode : Mode) (w : Worker) (s : S.State)
      → workers (start_worker S mode w s).2 ≡ (
          if eqb_ℤ (if (start_worker S mode w s).0 then minus_one else pos 0) minus_one
          then workers s
          else workers s + 1)
  as_processes-fork mode w s = elim (Bool-cases (start_worker S mode w s).0) [
    | inl failed ↦ rw failed (rw failed at (start_worker-workers mode w s))
    | inr made ↦ rw made (rw made at (start_worker-workers mode w s))
  ]

  module _ (mode : Mode) (use_pipes : Bool) where
    pub as_processes-IsCount : Created.IsCount (as_processes S mode use_pipes) workers
    as_processes-IsCount = record {
      forked-fork = λ w s. as_processes-fork mode (cut w) s;
      forked-malloc = C.workers-malloc;
      forked-pipe = as_processes-pipe use_pipes;
      forked-close = as_processes-close mode;
      forked-kill = C.workers-kill;
      forked-ignore_sigterm = C.workers-ignore_sigterm;
      forked-wait = C.workers-wait;
    }

    -- In either mode, with pipes or socket pairs.
    pub group-toy :
        ((s : S.State) → (fds : ℕ × ℕ) × ((open_pair S use_pipes s).0 ≡ some fds))
        → (tab : Table) (tab_offset num_fds loops ready_out wakefd : ℕ) (s : S.State)
        → num_fds * 2 < 2 ^ 32
        → (count : ℕ) × (tab' : Table) × (s' : S.State) × (group S mode use_pipes tab tab_offset
              num_fds loops ready_out wakefd s
            ≡ done (count, tab', s'))
          × (workers s ≤ workers s')
          × Returns
              (as_processes S mode use_pipes)
              workers
              as_processes-IsCount
              num_fds
              (workers s' - workers s)
              count
    group-toy opens tab tab_offset num_fds loops ready_out wakefd s small =
        let no_table : Workers.Table = λ i. pos 0 in
        let (count, tab2, t, ran, more, returns) =
          Ends.group-created (as_processes S mode use_pipes) opens workers as_processes-IsCount
            no_table tab_offset num_fds loops ready_out wakefd s small in
        let same =
          group-as_processes S mode use_pipes tab no_table tab_offset num_fds loops ready_out wakefd
            s in
        let ended : (group S mode use_pipes tab tab_offset num_fds loops ready_out wakefd s >>= λ r.
        done (outcome S mode use_pipes r))
            ≡ done (count, t) =
          same ∙ rw ran refl in
        let (r, made, last) =
          >>=-eq-done (group S mode use_pipes tab tab_offset num_fds loops ready_out wakefd s) _
            ended in
        let (bound, number) =
          subst
            (λ (p : ℕ × S.State).
              (workers s ≤ workers p.1)
              × Returns (as_processes S mode use_pipes) workers as_processes-IsCount num_fds
                  (workers p.1 - workers s) p.0)
            (sym (done-injective last)) (more, returns) in
        (r.0, r.1, r.2, made, bound, number)
