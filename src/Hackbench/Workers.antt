-- ===== src/Hackbench/Workers.antt =====
-- `fdpair`, `create_worker`, `group`, `signal_workers`, `reap_workers` and the loop of `main` that
-- starts the groups, of hackbench/hackbench.c, over the calls of the system. Messages on the
-- standard error are left out.
pub mod Created
pub mod Kept
pub mod Started
pub mod Ends
use linux_scheduler_comparis.Base.{
  ℕ, zero, suc, ◌+◌, ◌-◌, ◌*◌, ◌%◌, ◌^◌, Bool, true, false, Option, none, some, List, [], ◌∷◌, ◌++◌,
  ◌&&◌, ◌==◌, if◌then◌else◌,
}
use linux_scheduler_comparis.Base.Int.{ℤ, pos, minus_one, eqb_ℤ}
use linux_scheduler_comparis.Base.Outcome.{Outcome, done, exits, ◌>>=◌}

pub record ReceiverContext : Type 0 where
  pub num_packets : ℕ
  pub in_fds : ℕ × ℕ
  pub ready_out : ℕ
  pub wakefd : ℕ

pub record SenderContext : Type 0 where
  pub num_fds : ℕ
  pub ready_out : ℕ
  pub wakefd : ℕ
  pub out_fds : List ℕ

-- What a forked worker runs.
pub data Worker : Type 0 where
  receiver : ReceiverContext → Worker
  sender : SenderContext → Worker

-- How a waited child ended, or that there is none (`ECHILD`), or another error of `wait`.
pub data Waited : Type 0 where
  exited signalled no_child interrupted : Waited

-- The calls of the system. `none` of `pipe` is an error, and a pid of -1 a failed `fork`.
pub record System : Type 1 where
  pub State : Type 0
  pub malloc : State → Bool × State
  pub pipe : State → Option (ℕ × ℕ) × State
  pub fork : Worker → State → ℤ × State
  pub close : ℕ → State → State
  pub kill : ℤ → State → State
  pub ignore_sigterm : State → State
  pub wait : State → Waited × State

abbrev pub u32 : ℕ → ℕ
u32 n = n % 2 ^ 32

-- `child_tab`, as the pid at each index.
abbrev pub Table : Type 0
Table = ℕ → ℤ

abbrev pub write_entry : Table → ℕ → ℤ → Table
write_entry tab i pid j = if i == j then pid else tab j

module _ (S : System) where
  -- `fdpair`, with `barf` for a failure.
  unfoldable pub fdpair : S.State → Outcome ((ℕ × ℕ) × S.State)
  fdpair s =
      let (fds, s') = S.pipe s in elim fds [ some pair ↦ done (pair, s') | none ↦ exits (pos 1) ]

  -- The pid is stored before it is tested.
  unfoldable pub create_worker : Table → ℕ → Worker → S.State → Bool × Table × S.State
  create_worker tab index worker s =
      let (pid, s') = S.fork worker s in (eqb_ℤ pid minus_one, write_entry tab index pid, s')

  -- How the first loop of `group` ends: early, with the number that `group` returns, or with the
  -- descriptors of the senders.
  pub data Receivers : Type 0 where
    returned : ℕ → Table → S.State → Receivers
    all_made : List ℕ → Table → S.State → Receivers

  -- `(i > 0 ? i-1 : 0)`
  abbrev pub short_of : ℕ → ℕ
  short_of i = i - 1

  -- `for (i = 0; i < num_fds; i++)` over the receivers; the first number is the rounds left.
  unfoldable pub make_receivers :
      ℕ → ℕ → ℕ → ℕ → ℕ → ℕ → ℕ → List ℕ → Table → S.State → Outcome Receivers
  make_receivers zero i tab_offset num_fds loops ready_out wakefd out_fds tab s =
      done (all_made out_fds tab s)
  make_receivers (suc left) i tab_offset num_fds loops ready_out wakefd out_fds tab s =
      let (allocated, s1) = S.malloc s in
      elim allocated [
        | false ↦ done (returned (short_of i) tab s1)
        | true ↦ do
          (fds, s2) ← fdpair s1
          let ctx : ReceiverContext = record {
            num_packets = num_fds * loops;
            in_fds = fds;
            ready_out = ready_out;
            wakefd = wakefd;
          }
          let (err, tab', s3) = create_worker tab (u32 (tab_offset + i)) (receiver ctx) s2
          elim err [
            | true ↦ done (returned (short_of i) tab' s3)
            | false ↦
                make_receivers left (i + 1) tab_offset num_fds loops ready_out wakefd
                  (out_fds ++ (fds.1 ∷ [])) tab' (S.close fds.0 s3)
          ]
      ]

  -- The loop over the senders: `none` is its end, a number an early return.
  unfoldable pub make_senders :
      ℕ → ℕ → ℕ → SenderContext → Table → S.State → Option ℕ × Table × S.State
  make_senders zero i tab_offset ctx tab s = (none, tab, s)
  make_senders (suc left) i tab_offset ctx tab s =
      let (err, tab', s') = create_worker tab (u32 (tab_offset + ctx.num_fds + i)) (sender ctx) s in
      elim err [
        | true ↦ (some (ctx.num_fds + i - 1), tab', s')
        | false ↦ make_senders left (i + 1) tab_offset ctx tab' s'
      ]

  unfoldable pub close_all : List ℕ → S.State → S.State
  close_all [] s = s
  close_all (fd ∷ fds) s = close_all fds (S.close fd s)

  -- Behind the first loop: the senders, and the descriptors that are left.
  unfoldable pub finish_group : ℕ → ℕ → ℕ → ℕ → Receivers → ℕ × Table × S.State
  finish_group tab_offset num_fds ready_out wakefd (returned count tab s) = (count, tab, s)
  finish_group tab_offset num_fds ready_out wakefd (all_made out_fds tab s) =
      let ctx : SenderContext = record {
        num_fds = num_fds;
        ready_out = ready_out;
        wakefd = wakefd;
        out_fds = out_fds;
      } in
      let (early, tab', s') = make_senders num_fds 0 tab_offset ctx tab s in
      elim early [
        | some count ↦ (count, tab', s')
        | none ↦ (u32 (num_fds * 2), tab', close_all out_fds s')
      ]

  -- `group`: the number that it returns, the table and the state.
  unfoldable pub group : Table → ℕ → ℕ → ℕ → ℕ → ℕ → S.State → Outcome (ℕ × Table × S.State)
  group tab tab_offset num_fds loops ready_out wakefd s =
      let (allocated, s1) = S.malloc s in
      elim allocated [
        | false ↦ done (0, tab, s1)
        | true ↦ do
          made ← make_receivers num_fds 0 tab_offset num_fds loops ready_out wakefd [] tab s1
          done (finish_group tab_offset num_fds ready_out wakefd made)
      ]

  -- `for (i = 0; i < num_children; i++) kill(children[i].pid, SIGTERM);`
  unfoldable pub signal_from : ℕ → ℕ → Table → S.State → S.State
  signal_from zero i tab s = s
  signal_from (suc left) i tab s = signal_from left (i + 1) tab (S.kill (tab i) s)

  unfoldable pub signal_workers : Table → ℕ → S.State → S.State
  signal_workers tab num_children s = signal_from num_children 0 tab s

  -- A failed `wait` with another error leaves `status` as it is.
  abbrev pub has_exited : Waited → Bool → Bool
  has_exited exited before = true
  has_exited signalled before = false
  has_exited no_child before = before
  has_exited interrupted before = before

  unfoldable pub reap_rounds : ℕ → ℕ → Bool → S.State → ℕ × S.State
  reap_rounds zero rc status s = (rc, s)
  reap_rounds (suc left) rc status s =
      let (w, s') = S.wait s in
      let status' = has_exited w status in
      let rc' : ℕ = elim w [ no_child ↦ rc | _ ↦ if status' then rc else rc + 1 ] in
      reap_rounds left rc' status' s'

  -- `status` starts with the value that the memory holds.
  unfoldable pub reap_workers : Bool → Table → ℕ → Bool → S.State → ℕ × S.State
  reap_workers status tab totchld dokill s =
      reap_rounds totchld 0 status
        (if dokill then signal_workers tab totchld (S.ignore_sigterm s) else s)

  -- How the loop of `main` over the groups ends: with all workers, or in the error case, where
  -- `reap_workers(child_tab, total_children + c, 1)` runs and `barf` ends the process.
  pub data Start : Type 0 where
    started : ℕ → Table → S.State → Start
    creating_failed : Table → S.State → Start

  unfoldable pub start_groups : ℕ → Bool → ℕ → ℕ → ℕ → ℕ → ℕ → Table → S.State → Outcome Start
  start_groups zero status total_children num_fds loops ready_out wakefd tab s =
      done (started total_children tab s)
  start_groups (suc left) status total_children num_fds loops ready_out wakefd tab s = do
    (c, tab', s') ← group tab total_children num_fds loops ready_out wakefd s
    let rest =
        start_groups left status (u32 (total_children + c)) num_fds loops ready_out wakefd tab' s'
    let (rc, s'') = reap_workers status tab' (u32 (total_children + c)) true s'
    if c == u32 (num_fds * 2) then rest else done (creating_failed tab' s'')
