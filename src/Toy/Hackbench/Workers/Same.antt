-- ===== src/Toy/Hackbench/Workers/Same.antt =====
-- `group` of toy/hackbench.c, in either mode, against `group` of hackbench/hackbench.c.
use linux_scheduler_comparis.Base.{
  ℕ, zero, suc, ◌+◌, ◌*◌, ◌≡◌, refl, Bool, Bool-cases, Option-cases, inl, inr, List, [], ◌∷◌, ◌++◌,
  if◌then◌else◌, arith,
}
use linux_scheduler_comparis.Base.Int.{ℤ, pos, minus_one}
use linux_scheduler_comparis.Base.Outcome.{done, ◌>>=◌, >>=-same, >>=-assoc}
use linux_scheduler_comparis.Hackbench.Workers
use linux_scheduler_comparis.Hackbench.Workers.{
  ReceiverContext, SenderContext, Worker, receiver, sender, u32,
}
use linux_scheduler_comparis.Toy.Hackbench.Options.{Mode}
use linux_scheduler_comparis.Toy.Hackbench.Workers.{
  System, Table, write_entry, start_worker, create_worker, open_pair, close_in, fdpair, Receivers,
  returned, all_made, make_receivers, make_senders, close_all, finish_group, group,
}

-- A receiver of hackbench/hackbench.c with its number of packets cut to 32 bits.
abbrev pub cut : Worker → Worker
cut (receiver ctx) = receiver (record ctx { num_packets = u32 ctx.num_packets })
cut (sender ctx) = sender ctx

module _ (S : System) (mode : Mode) (use_pipes : Bool) where
  abbrev pub fork_of : Bool × S.State → ℤ × S.State
  fork_of (err, s) = (if err then minus_one else pos 0, s)

  abbrev pub start_of : Worker → S.State → Bool × S.State
  start_of w s = let (err, info, s') = start_worker S mode (cut w) s in (err, s')

  -- The calls as hackbench/hackbench.c sees them: a pipe is a pair of either kind, a process a
  -- worker of either kind, and a descriptor is closed for processes only.
  abbrev pub as_processes : Workers.System
  as_processes = record {
    State = S.State;
    malloc = S.malloc;
    pipe = open_pair S use_pipes;
    fork = λ w s. fork_of (start_of w s);
    close = close_in S mode;
    kill = S.kill;
    ignore_sigterm = S.ignore_sigterm;
    wait = S.wait;
  }

  -- What the first loop of `group` comes to, without the table.
  pub data Summary : Type 0 where
    short : ℕ → S.State → Summary
    full : List ℕ → S.State → Summary

  abbrev summary : Receivers S → Summary
  summary (returned count tab s) = short count s
  summary (all_made out_fds tab s) = full out_fds s

  abbrev summary_of : Workers.Receivers as_processes → Summary
  summary_of (Workers.returned count tab s) = short count s
  summary_of (Workers.all_made out_fds tab s) = full out_fds s

  make_receivers_same :
      (left i tab_offset num_fds loops ready_out wakefd : ℕ) (out_fds : List ℕ) (tab : Table)
      (tab2 : Workers.Table) (s : S.State)
      → (make_receivers S mode use_pipes left i tab_offset num_fds loops ready_out wakefd out_fds
            tab s
          >>= λ r. done (summary r))
        ≡ (Workers.make_receivers as_processes left i tab_offset num_fds loops ready_out wakefd
              out_fds tab2 s
            >>= λ r. done (summary_of r))
  unfolding make_receivers Workers.make_receivers fdpair Workers.fdpair create_worker
      Workers.create_worker
  make_receivers_same zero i tab_offset num_fds loops ready_out wakefd out_fds tab tab2 s = refl
  make_receivers_same (suc left) i tab_offset num_fds loops ready_out wakefd out_fds tab tab2 s =
      let s1 = (S.malloc s).1 in
      elim (Bool-cases (S.malloc s).0) [
        | inr refused ↦ ground arith
        | inl allocated ↦ elim (Option-cases (open_pair S use_pipes s1).0) [
          | inl broken ↦ ground arith
          | inr (fds, opened) ↦
              let ctx : ReceiverContext = record {
                num_packets = u32 (num_fds * loops);
                in_fds = fds;
                ready_out = ready_out;
                wakefd = wakefd;
              } in
              let s2 = (open_pair S use_pipes s1).1 in
              let (err, info, s3) = start_worker S mode (receiver ctx) s2 in
              elim (Bool-cases (start_worker S mode (receiver ctx) s2).0) [
                | inl failed ↦ ground arith
                | inr forked ↦ ground (
                  arith,
                  make_receivers_same left (i + 1) tab_offset num_fds loops ready_out wakefd
                      (out_fds ++ (fds.1 ∷ [])) (write_entry tab (u32 (tab_offset + i)) info)
                      (Workers.write_entry tab2 (u32 (tab_offset + i)) (pos 0))
                      (close_in S mode fds.0 s3),
                )
              ]
        ]
      ]

  make_senders_same :
      (left i tab_offset : ℕ) (ctx : SenderContext) (tab : Table) (tab2 : Workers.Table)
      (s : S.State)
      → ((make_senders S mode use_pipes left i tab_offset ctx tab s).0
          ≡ (Workers.make_senders as_processes left i tab_offset ctx tab2 s).0)
        × ((make_senders S mode use_pipes left i tab_offset ctx tab s).2
            ≡ (Workers.make_senders as_processes left i tab_offset ctx tab2 s).2)
  unfolding make_senders Workers.make_senders create_worker Workers.create_worker
  make_senders_same zero i tab_offset ctx tab tab2 s = (refl, refl)
  make_senders_same (suc left) i tab_offset ctx tab tab2 s =
      let index = u32 (tab_offset + ctx.num_fds + i) in
      let (err, info, s') = start_worker S mode (sender ctx) s in
      let ih =
        make_senders_same left (i + 1) tab_offset ctx (write_entry tab index info)
          (Workers.write_entry tab2 index (pos 0)) s' in
      elim (Bool-cases (start_worker S mode (sender ctx) s).0) [
        | inl failed ↦ (ground arith, ground arith)
        | inr forked ↦ (ground (arith, ih), ground (arith, ih))
      ]

  close_all_same :
      (fds : List ℕ) (s : S.State)
      → close_all S mode use_pipes fds s ≡ Workers.close_all as_processes fds s
  unfolding close_all Workers.close_all
  close_all_same [] s = refl
  close_all_same (fd ∷ fds) s = close_all_same fds (close_in S mode fd s)

  -- The number and the state, without the table.
  abbrev pub outcome {ℓ} : {T : Type ℓ} → ℕ × T × S.State → ℕ × S.State
  outcome (count, tab, s) = (count, s)

  finish_group_same :
      (tab_offset num_fds ready_out wakefd : ℕ) (r : Receivers S)
      (r2 : Workers.Receivers as_processes)
      → summary r ≡ summary_of r2
      → outcome (finish_group S mode use_pipes tab_offset num_fds ready_out wakefd r)
        ≡ outcome (Workers.finish_group as_processes tab_offset num_fds ready_out wakefd r2)
  unfolding finish_group Workers.finish_group
  finish_group_same tab_offset num_fds ready_out wakefd (returned count tab s)
        (Workers.returned count2 tab2 s2) h =
      cc
  finish_group_same tab_offset num_fds ready_out wakefd (returned count tab s)
        (Workers.all_made fds2 tab2 s2) h =
      cc
  finish_group_same tab_offset num_fds ready_out wakefd (all_made fds tab s)
        (Workers.returned count2 tab2 s2) h =
      cc
  finish_group_same tab_offset num_fds ready_out wakefd (all_made fds tab s)
        (Workers.all_made fds2 tab2 s2) h =
      let ctx : SenderContext = record {
        num_fds = num_fds;
        ready_out = ready_out;
        wakefd = wakefd;
        out_fds = fds;
      } in
      let senders = make_senders_same num_fds 0 tab_offset ctx tab tab2 s in
      let shut =
        close_all_same fds (make_senders S mode use_pipes num_fds 0 tab_offset ctx tab s).2 in
      ground (arith, senders, shut)

  -- In either mode, with pipes or with socket pairs: `group` of toy/hackbench.c ends as `group` of
  -- hackbench/hackbench.c does, with the same number and the same state of the system, if that one
  -- is given the workers as its processes, the descriptor pairs as its pipes, a `close` that
  -- closes for processes only, and receivers with their number of packets cut to 32 bits. The
  -- table of the workers is not compared.
  pub group-as_processes :
      (tab : Table) (tab2 : Workers.Table) (tab_offset num_fds loops ready_out wakefd : ℕ)
      (s : S.State)
      → (group S mode use_pipes tab tab_offset num_fds loops ready_out wakefd s >>= λ r.
          done (outcome r))
        ≡ (Workers.group as_processes tab2 tab_offset num_fds loops ready_out wakefd s >>= λ r.
            done (outcome r))
  unfolding group Workers.group
  group-as_processes tab tab2 tab_offset num_fds loops ready_out wakefd s =
      let s1 = (S.malloc s).1 in
      let made =
        make_receivers S mode use_pipes num_fds 0 tab_offset num_fds loops ready_out wakefd [] tab
          s1 in
      let made2 =
        Workers.make_receivers as_processes num_fds 0 tab_offset num_fds loops ready_out wakefd []
          tab2 s1 in
      let same =
        >>=-same made made2 summary summary_of
          (λ r. outcome (finish_group S mode use_pipes tab_offset num_fds ready_out wakefd r))
          (λ r. outcome (Workers.finish_group as_processes tab_offset num_fds ready_out wakefd r))
          (finish_group_same tab_offset num_fds ready_out wakefd)
          (make_receivers_same num_fds 0 tab_offset num_fds loops ready_out wakefd [] tab tab2
            s1) in
      elim (Bool-cases (S.malloc s).0) [
        | inr refused ↦ ground arith
        | inl allocated ↦ rw (group, Workers.group, allocated, >>=-assoc made, >>=-assoc made2) same
      ]
