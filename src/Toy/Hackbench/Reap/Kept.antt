-- ===== src/Toy/Hackbench/Reap/Kept.antt =====
-- Counts of the calls of toy/hackbench.c that tell workers to end and that await them: `group` leaves
-- them as they are, and `reap_workers` adds to them.
use linux_scheduler_comparis.Base.{
  ℕ, zero, suc, ◌+◌, ◌≡◌, refl, ap, sym, ◌∙◌, Bool, true, false, arith,
}
use linux_scheduler_comparis.Base.Int.{ℤ, pos}
use linux_scheduler_comparis.Base.Outcome.{done, ◌>>=◌, >>=-eq-done, done-injective}
use linux_scheduler_comparis.Hackbench.Workers
use linux_scheduler_comparis.Hackbench.Workers.{Worker}
use linux_scheduler_comparis.Hackbench.Workers.Kept
use linux_scheduler_comparis.Toy.Hackbench.Options.{Mode, threads, processes}
use linux_scheduler_comparis.Toy.Hackbench.Workers.{
  System, ChildInfo, Table, pid_of, threadid_of, start_worker, open_pair, close_in, group,
}
use linux_scheduler_comparis.Toy.Hackbench.Workers.Same.{
  as_processes, cut, outcome, group-as_processes,
}
use linux_scheduler_comparis.Toy.Hackbench.Reap.{
  signal_from, signal_workers, reap_one, reap_rounds, reap_workers,
}

-- The calls of `group` leave the count as it is.
pub record IsKept (S : System) (count : S.State → ℕ) : Type 0 where
  pub kept-fork : (w : Worker) (s : S.State) → count (S.fork w s).1 ≡ count s
  pub kept-pthread_create : (w : Worker) (s : S.State) → count (S.pthread_create w s).2 ≡ count s
  pub kept-pthread_attr_init : (s : S.State) → count (S.pthread_attr_init s).1 ≡ count s
  pub kept-pthread_attr_setstacksize :
      (s : S.State) → count (S.pthread_attr_setstacksize s).1 ≡ count s
  pub kept-malloc : (s : S.State) → count (S.malloc s).1 ≡ count s
  pub kept-pipe : (s : S.State) → count (S.pipe s).1 ≡ count s
  pub kept-socketpair : (s : S.State) → count (S.socketpair s).1 ≡ count s
  pub kept-close : (fd : ℕ) (s : S.State) → count (S.close fd s) ≡ count s

-- Counts of the calls of `kill`, and of `wait` and `pthread_join`: nothing else changes them.
pub record IsReaping (S : System) (told awaited : S.State → ℕ) : Type 0 where
  pub told-IsKept : IsKept S told
  pub awaited-IsKept : IsKept S awaited
  pub told-kill : (pid : ℤ) (s : S.State) → told (S.kill pid s) ≡ told s + 1
  pub told-ignore_sigterm : (s : S.State) → told (S.ignore_sigterm s) ≡ told s
  pub told-wait : (s : S.State) → told (S.wait s).1 ≡ told s
  pub told-pthread_join : (t : ℕ) (s : S.State) → told (S.pthread_join t s).1 ≡ told s
  pub awaited-kill : (pid : ℤ) (s : S.State) → awaited (S.kill pid s) ≡ awaited s
  pub awaited-ignore_sigterm : (s : S.State) → awaited (S.ignore_sigterm s) ≡ awaited s
  pub awaited-wait : (s : S.State) → awaited (S.wait s).1 ≡ awaited s + 1
  pub awaited-pthread_join : (t : ℕ) (s : S.State) → awaited (S.pthread_join t s).1 ≡ awaited s + 1

module _ (S : System) (count : S.State → ℕ) (K : IsKept S count) where
  start_worker-kept :
      (mode : Mode) (w : Worker) (s : S.State) → count (start_worker S mode w s).2 ≡ count s
  unfolding start_worker
  start_worker-kept processes w s = K.kept-fork w s
  start_worker-kept threads w s =
      let s1 = (S.pthread_attr_init s).1 in
      let s2 = (S.pthread_attr_setstacksize s1).1 in
      ground (
        arith,
        K.kept-pthread_attr_init s,
        K.kept-pthread_attr_setstacksize s1,
        K.kept-pthread_create w s2,
      )

  close_in-kept : (mode : Mode) (fd : ℕ) (s : S.State) → count (close_in S mode fd s) ≡ count s
  close_in-kept processes fd s = K.kept-close fd s
  close_in-kept threads fd s = refl

  open_pair-kept : (use_pipes : Bool) (s : S.State) → count (open_pair S use_pipes s).1 ≡ count s
  open_pair-kept true s = K.kept-pipe s
  open_pair-kept false s = K.kept-socketpair s

  module _ (mode : Mode) (use_pipes : Bool) where
    as_processes-IsKept : Kept.IsKept (as_processes S mode use_pipes) count
    as_processes-IsKept = record {
      kept-fork = λ w s. start_worker-kept mode (cut w) s;
      kept-malloc = K.kept-malloc;
      kept-pipe = open_pair-kept use_pipes;
      kept-close = close_in-kept mode;
    }

    pub group-kept :
        (tab : Table) (tab_offset num_fds loops ready_out wakefd : ℕ) (s : S.State)
        (r : ℕ × Table × S.State)
        → group S mode use_pipes tab tab_offset num_fds loops ready_out wakefd s ≡ done r
        → count r.2 ≡ count s
    group-kept tab tab_offset num_fds loops ready_out wakefd s r h =
        let no_table : Workers.Table = λ i. pos 0 in
        let same =
          group-as_processes S mode use_pipes tab no_table tab_offset num_fds loops ready_out wakefd
            s in
        let ended : (Workers.group (as_processes S mode use_pipes) no_table tab_offset num_fds loops
                ready_out wakefd s
              >>= λ t. done (outcome S mode use_pipes t))
            ≡ done (outcome S mode use_pipes r) =
          sym same ∙ rw h refl in
        let (t, made, last) = >>=-eq-done _ _ ended in
        let kept =
          Kept.group-kept (as_processes S mode use_pipes) count as_processes-IsKept no_table
            tab_offset num_fds loops ready_out wakefd s t made in
        sym (ap (λ (p : ℕ × S.State). count p.1) (done-injective last)) ∙ kept

module _ (S : System) (told awaited : S.State → ℕ) (R : IsReaping S told awaited) where
  signal_from-told :
      (left i : ℕ) (tab : Table) (s : S.State)
      → (told (signal_from S left i tab s) ≡ told s + left)
        × (awaited (signal_from S left i tab s) ≡ awaited s)
  unfolding signal_from
  signal_from-told zero i tab s = omega arith
  signal_from-told (suc left) i tab s =
      let p = pid_of S (tab i) in
      let ih = signal_from-told left (i + 1) tab (S.kill p s) in
      ground (arith, ih, R.told-kill p s, R.awaited-kill p s)

  reap_one-awaited :
      (mode : Mode) (info : ChildInfo) (status : Bool) (s : S.State)
      → (told (reap_one S mode info status s).2 ≡ told s)
        × (awaited (reap_one S mode info status s).2 ≡ awaited s + 1)
  unfolding reap_one
  reap_one-awaited processes info status s = (R.told-wait s, R.awaited-wait s)
  reap_one-awaited threads info status s =
      let t = threadid_of S info in (R.told-pthread_join t s, R.awaited-pthread_join t s)

  reap_rounds-awaited :
      (mode : Mode) (left i : ℕ) (tab : Table) (rc : ℕ) (status : Bool) (s : S.State)
      → (told (reap_rounds S mode left i tab rc status s).1 ≡ told s)
        × (awaited (reap_rounds S mode left i tab rc status s).1 ≡ awaited s + left)
  unfolding reap_rounds
  reap_rounds-awaited mode zero i tab rc status s = omega arith
  reap_rounds-awaited mode (suc left) i tab rc status s =
      let (more, status', s') = reap_one S mode (tab i) status s in
      let (quiet, one) = reap_one-awaited mode (tab i) status s in
      let (same, rest) = reap_rounds-awaited mode left (i + 1) tab (rc + more) status' s' in
      (same ∙ quiet, rest ∙ omega (arith, one))

  -- `reap_workers` with `dokill`: each of the workers of the table is told, and awaited.
  pub reap_workers-told :
      (mode : Mode) (status : Bool) (tab : Table) (totchld : ℕ) (s : S.State)
      → (told (reap_workers S mode status tab totchld true s).1 ≡ told s + totchld)
        × (awaited (reap_workers S mode status tab totchld true s).1 ≡ awaited s + totchld)
  unfolding reap_workers signal_workers
  reap_workers-told mode status tab totchld s =
      let s1 = S.ignore_sigterm s in
      let (signalled, quiet) = signal_from-told totchld 0 tab s1 in
      let (same, more) =
        reap_rounds-awaited mode totchld 0 tab 0 status (signal_from S totchld 0 tab s1) in
      (
        same ∙ (signalled ∙ omega (arith, R.told-ignore_sigterm s)),
        more ∙ omega (arith, quiet, R.awaited-ignore_sigterm s),
      )
