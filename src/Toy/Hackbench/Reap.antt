-- ===== src/Toy/Hackbench/Reap.antt =====
-- `signal_workers`, `reap_workers` and the loop of `main` that starts the groups, of
-- toy/hackbench.c.
pub mod Kept
pub mod Started
use linux_scheduler_comparis.Base.{ℕ, zero, suc, ◌+◌, ◌*◌, Bool, true, false, ◌==◌, if◌then◌else◌}
use linux_scheduler_comparis.Base.Outcome.{Outcome, done, ◌>>=◌}
use linux_scheduler_comparis.Hackbench.Workers.{
  Waited, exited, signalled, no_child, interrupted, u32,
}
use linux_scheduler_comparis.Toy.Hackbench.Options.{Mode, threads, processes}
use linux_scheduler_comparis.Toy.Hackbench.Workers.{
  System, ChildInfo, Table, pid_of, threadid_of, group,
}

module _ (S : System) where
  -- `for (i=0; i < num_children; i++) kill(children[i].pid, SIGTERM);`, whatever the mode.
  unfoldable pub signal_from : ℕ → ℕ → Table → S.State → S.State
  signal_from zero i tab s = s
  signal_from (suc left) i tab s = signal_from left (i + 1) tab (S.kill (pid_of S (tab i)) s)

  unfoldable pub signal_workers : Table → ℕ → S.State → S.State
  signal_workers tab num_children s = signal_from num_children 0 tab s

  -- A failed `wait` with another error leaves `status` as it is.
  abbrev pub has_exited : Waited → Bool → Bool
  has_exited exited before = true
  has_exited signalled before = false
  has_exited no_child before = before
  has_exited interrupted before = before

  -- One round: what is added to `rc`, the status, and the state.
  unfoldable pub reap_one : Mode → ChildInfo → Bool → S.State → ℕ × Bool × S.State
  reap_one processes info status s =
      let (w, s') = S.wait s in
      let status' = has_exited w status in
      let more : ℕ = elim w [ no_child ↦ 0 | _ ↦ if status' then 0 else 1 ] in (more, status', s')
  reap_one threads info status s =
      let (joined, s') = S.pthread_join (threadid_of S info) s in
      ((if joined then 0 else 1), status, s')

  unfoldable pub reap_rounds : Mode → ℕ → ℕ → Table → ℕ → Bool → S.State → ℕ × S.State
  reap_rounds mode zero i tab rc status s = (rc, s)
  reap_rounds mode (suc left) i tab rc status s =
      let (more, status', s') = reap_one mode (tab i) status s in
      reap_rounds mode left (i + 1) tab (rc + more) status' s'

  -- `status` starts with the value that the memory holds.
  unfoldable pub reap_workers : Mode → Bool → Table → ℕ → Bool → S.State → ℕ × S.State
  reap_workers mode status tab totchld dokill s =
      reap_rounds mode totchld 0 tab 0 status
        (if dokill then signal_workers tab totchld (S.ignore_sigterm s) else s)

  -- How the loop of `main` over the groups ends: with all workers, or in the error case, where
  -- `reap_workers(child_tab, total_children + c, 1)` runs and `barf` ends the process.
  pub data Start : Type 0 where
    started : ℕ → Table → S.State → Start
    creating_failed : Table → S.State → Start

  unfoldable pub start_groups :
      Mode → Bool → ℕ → Bool → ℕ → ℕ → ℕ → ℕ → ℕ → Table → S.State → Outcome Start
  start_groups mode use_pipes zero status total_children num_fds loops ready_out wakefd tab s =
      done (started total_children tab s)
  start_groups mode use_pipes (suc left) status total_children num_fds loops ready_out wakefd tab
        s =
      do
        (c, tab', s') ← group S mode use_pipes tab total_children num_fds loops ready_out wakefd s
        let rest =
            start_groups mode use_pipes left status (u32 (total_children + c)) num_fds loops
              ready_out wakefd tab' s'
        let (rc, s'') = reap_workers mode status tab' (u32 (total_children + c)) true s'
        if c == u32 (num_fds * 2) then rest else done (creating_failed tab' s'')
