-- ===== src/Toy/Hackbench/Workers.antt =====
-- `fdpair`, `create_worker` and `group` of toy/hackbench.c, over the calls of the system. Messages
-- on the standard error are left out. The contexts of the workers are those of
-- hackbench/hackbench.c.
pub mod Same
pub mod Created
use linux_scheduler_comparis.Base.{
  ℕ, zero, suc, ◌+◌, ◌-◌, ◌*◌, Bool, true, false, Option, none, some, List, [], ◌∷◌, ◌++◌, ◌==◌,
  if◌then◌else◌,
}
use linux_scheduler_comparis.Base.Int.{ℤ, pos, minus_one, eqb_ℤ}
use linux_scheduler_comparis.Base.Outcome.{Outcome, done, exits, ◌>>=◌}
use linux_scheduler_comparis.Hackbench.Workers.{
  ReceiverContext, SenderContext, Worker, receiver, sender, Waited, u32,
}
use linux_scheduler_comparis.Toy.Hackbench.Options.{Mode, threads, processes}

-- The calls of the system. `none` of `pipe` is an error, and a pid of -1 a failed `fork`; the
-- Boolean of a `pthread_` call says that it succeeded.
pub record System : Type 1 where
  pub State : Type 0
  pub malloc : State → Bool × State
  pub pipe : State → Option (ℕ × ℕ) × State
  pub socketpair : State → Option (ℕ × ℕ) × State
  pub fork : Worker → State → ℤ × State
  pub pthread_attr_init : State → Bool × State
  pub pthread_attr_setstacksize : State → Bool × State
  -- with what it leaves in the thread id
  pub pthread_create : Worker → State → Bool × ℕ × State
  pub close : ℕ → State → State
  pub kill : ℤ → State → State
  pub ignore_sigterm : State → State
  pub wait : State → Waited × State
  pub pthread_join : ℕ → State → Bool × State
  -- what the memory of the one member of `childinfo_t` is as the other
  pub as_pid : ℕ → ℤ
  pub as_threadid : ℤ → ℕ

-- `childinfo_t`, with the member that was written last.
pub data ChildInfo : Type 0 where
  pid : ℤ → ChildInfo
  threadid : ℕ → ChildInfo

-- `child_tab`
abbrev pub Table : Type 0
Table = ℕ → ChildInfo

abbrev pub write_entry : Table → ℕ → Option ChildInfo → Table
write_entry tab i none j = tab j
write_entry tab i (some info) j = if i == j then info else tab j

-- `num_fds*loops`, a product of two `unsigned int`.
abbrev pub num_packets_of : ℕ → ℕ → ℕ
num_packets_of num_fds loops = u32 (num_fds * loops)

module _ (S : System) where
  abbrev pub pid_of : ChildInfo → ℤ
  pid_of (pid p) = p
  pid_of (threadid t) = S.as_pid t

  abbrev pub threadid_of : ChildInfo → ℕ
  threadid_of (pid p) = S.as_threadid p
  threadid_of (threadid t) = t

  abbrev pub open_pair : Bool → S.State → Option (ℕ × ℕ) × S.State
  open_pair use_pipes s = if use_pipes then S.pipe s else S.socketpair s

  -- `fdpair`, with `barf` for a failure.
  unfoldable pub fdpair : Bool → S.State → Outcome ((ℕ × ℕ) × S.State)
  fdpair use_pipes s =
      let (fds, s') = open_pair use_pipes s in
      elim fds [ some pair ↦ done (pair, s') | none ↦ exits (pos 1) ]

  -- The `switch` of `create_worker`: whether it fails, and what it stores.
  unfoldable pub start_worker : Mode → Worker → S.State → Bool × Option ChildInfo × S.State
  start_worker processes worker s =
      let (p, s') = S.fork worker s in (eqb_ℤ p minus_one, some (pid p), s')
  start_worker threads worker s =
      let (initialised, s1) = S.pthread_attr_init s in
      let (sized, s2) = S.pthread_attr_setstacksize s1 in
      let (created, t, s3) = S.pthread_create worker s2 in
      if initialised
      then (if sized
          then ((if created then false else true), some (threadid t), s3)
          else (true, none, s2))
      else (true, none, s1)

  unfoldable pub create_worker : Mode → Table → ℕ → Worker → S.State → Bool × Table × S.State
  create_worker mode tab index worker s =
      let (err, info, s') = start_worker mode worker s in (err, write_entry tab index info, s')

  -- `if (process_mode == PROCESS_MODE) close(fd);`
  abbrev pub close_in : Mode → ℕ → S.State → S.State
  close_in processes fd s = S.close fd s
  close_in threads fd s = s

  -- How the first loop of `group` ends: early, with the number that `group` returns, or with the
  -- descriptors of the senders.
  pub data Receivers : Type 0 where
    returned : ℕ → Table → S.State → Receivers
    all_made : List ℕ → Table → S.State → Receivers

  -- `(i > 0 ? i-1 : 0)`
  abbrev pub short_of : ℕ → ℕ
  short_of i = i - 1

  module _ (mode : Mode) (use_pipes : Bool) where
    -- `for (i = 0; i < num_fds; i++)` over the receivers; the first number is the rounds left.
    unfoldable pub make_receivers :
        ℕ → ℕ → ℕ → ℕ → ℕ → ℕ → ℕ → List ℕ → Table → S.State → Outcome Receivers
    make_receivers zero i tab_offset num_fds loops ready_out wakefd out_fds tab s =
        done (all_made out_fds tab s)
    make_receivers (suc left) i tab_offset num_fds loops ready_out wakefd out_fds tab s =
        let (allocated, s1) = S.malloc s in
        elim allocated [
          | false ↦ done (returned (short_of i) tab s1)
          | true ↦ do
            (fds, s2) ← fdpair use_pipes s1
            let ctx : ReceiverContext = record {
              num_packets = num_packets_of num_fds loops;
              in_fds = fds;
              ready_out = ready_out;
              wakefd = wakefd;
            }
            let (err, tab', s3) = create_worker mode tab (u32 (tab_offset + i)) (receiver ctx) s2
            elim err [
              | true ↦ done (returned (short_of i) tab' s3)
              | false ↦
                  make_receivers left (i + 1) tab_offset num_fds loops ready_out wakefd
                    (out_fds ++ (fds.1 ∷ [])) tab' (close_in mode fds.0 s3)
            ]
        ]

    -- The loop over the senders: `none` is its end, a number an early return.
    unfoldable pub make_senders :
        ℕ → ℕ → ℕ → SenderContext → Table → S.State → Option ℕ × Table × S.State
    make_senders zero i tab_offset ctx tab s = (none, tab, s)
    make_senders (suc left) i tab_offset ctx tab s =
        let (err, tab', s') =
          create_worker mode tab (u32 (tab_offset + ctx.num_fds + i)) (sender ctx) s in
        elim err [
          | true ↦ (some (ctx.num_fds + i - 1), tab', s')
          | false ↦ make_senders left (i + 1) tab_offset ctx tab' s'
        ]

    -- `if (process_mode == PROCESS_MODE) for (i = 0; …) close(snd_ctx->out_fds[i]);`
    unfoldable pub close_all : List ℕ → S.State → S.State
    close_all [] s = s
    close_all (fd ∷ fds) s = close_all fds (close_in mode fd s)

    -- Behind the first loop: the senders, and the descriptors that are left.
    unfoldable pub finish_group : ℕ → ℕ → ℕ → ℕ → Receivers → ℕ × Table × S.State
    finish_group tab_offset num_fds ready_out wakefd (returned count tab s) = (count, tab, s)
    finish_group tab_offset num_fds ready_out wakefd (all_made out_fds tab s) =
        let ctx : SenderContext = record {
          num_fds = num_fds;
          ready_out = ready_out;
          wakefd = wakefd;
          out_fds = out_fds;
        } in
        let (early, tab', s') = make_senders num_fds 0 tab_offset ctx tab s in
        elim early [
          | some count ↦ (count, tab', s')
          | none ↦ (u32 (num_fds * 2), tab', close_all out_fds s')
        ]

    -- `group`: the number that it returns, the table and the state.
    unfoldable pub group : Table → ℕ → ℕ → ℕ → ℕ → ℕ → S.State → Outcome (ℕ × Table × S.State)
    group tab tab_offset num_fds loops ready_out wakefd s =
        let (allocated, s1) = S.malloc s in
        elim allocated [
          | false ↦ done (0, tab, s1)
          | true ↦ do
            made ← make_receivers num_fds 0 tab_offset num_fds loops ready_out wakefd [] tab s1
            done (finish_group tab_offset num_fds ready_out wakefd made)
        ]
