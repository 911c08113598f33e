-- ===== src/Hackbench/Workers/Ends.antt =====
-- `group` and the loop over the groups of hackbench/hackbench.c end, where `pipe` never fails.
use linux_scheduler_comparis.Base.{
  ℕ, zero, suc, ◌+◌, ◌-◌, ◌*◌, ◌^◌, ◌≤◌, ◌<◌, ◌≡◌, inl, inr, refl, Bool, true, some, List, [], ◌∷◌,
  ◌++◌, arith, ◌==◌, Bool-cases,
}
use linux_scheduler_comparis.Base.Int.{minus_one, eqb_ℤ}
use linux_scheduler_comparis.Base.Outcome.{done}
use linux_scheduler_comparis.Hackbench.Workers.{
  ReceiverContext, receiver, System, u32, Table, write_entry, fdpair, create_worker, Receivers,
  returned, all_made, short_of, make_receivers, finish_group, group, reap_workers, Start, started,
  creating_failed, start_groups,
}
use linux_scheduler_comparis.Hackbench.Workers.Created.{IsCount, Returns, group-Returns}
use linux_scheduler_comparis.Hackbench.Workers.Started.{IsReaping, Starts, start_groups-Starts}

module _ (S : System) (pipes : (s : S.State) → (fds : ℕ × ℕ) × ((S.pipe s).0 ≡ some fds)) where
  make_receivers_total :
      (left i tab_offset num_fds loops ready_out wakefd : ℕ) (out_fds : List ℕ) (tab : Table)
      (s : S.State)
      → (r : Receivers S) × (make_receivers S left i tab_offset num_fds loops ready_out wakefd
            out_fds tab s
          ≡ done r)
  unfolding make_receivers fdpair create_worker
  make_receivers_total zero i tab_offset num_fds loops ready_out wakefd out_fds tab s =
      (all_made out_fds tab s, refl)
  make_receivers_total (suc left) i tab_offset num_fds loops ready_out wakefd out_fds tab s =
      let s1 = (S.malloc s).1 in
      let (fds, opened) = pipes s1 in
      let ctx : ReceiverContext = record {
        num_packets = num_fds * loops;
        in_fds = fds;
        ready_out = ready_out;
        wakefd = wakefd;
      } in
      let forking = S.fork (receiver ctx) (S.pipe s1).1 in
      let tab' = write_entry tab (u32 (tab_offset + i)) forking.0 in
      let (r, ran) =
        make_receivers_total left (i + 1) tab_offset num_fds loops ready_out wakefd
          (out_fds ++ (fds.1 ∷ [])) tab' (S.close fds.0 forking.1) in
      elim (Bool-cases (S.malloc s).0) [
        | inr refused ↦ (returned (short_of S i) tab s1, ground arith)
        | inl allocated ↦ elim (Bool-cases (eqb_ℤ forking.0 minus_one)) [
          | inl failed ↦ (returned (short_of S i) tab' forking.1, ground arith)
          | inr forked ↦ (r, ground arith)
        ]
      ]

  group_total :
      (tab : Table) (tab_offset num_fds loops ready_out wakefd : ℕ) (s : S.State)
      → (r : ℕ × Table × S.State) × (group S tab tab_offset num_fds loops ready_out wakefd s
          ≡ done r)
  unfolding group
  group_total tab tab_offset num_fds loops ready_out wakefd s =
      let (made, ran) =
        make_receivers_total num_fds 0 tab_offset num_fds loops ready_out wakefd [] tab
          (S.malloc s).1 in
      elim (Bool-cases (S.malloc s).0) [
        | inr refused ↦ ((0, tab, (S.malloc s).1), ground arith)
        | inl allocated ↦ (finish_group S tab_offset num_fds ready_out wakefd made, ground arith)
      ]

  start_groups_total :
      (left : ℕ) (status : Bool) (total num_fds loops ready_out wakefd : ℕ) (tab : Table)
      (s : S.State)
      → (r : Start S) × (start_groups S left status total num_fds loops ready_out wakefd tab s
          ≡ done r)
  unfolding start_groups
  start_groups_total zero status total num_fds loops ready_out wakefd tab s =
      (started total tab s, refl)
  start_groups_total (suc left) status total num_fds loops ready_out wakefd tab s =
      let ((c, tab', s'), made) = group_total tab total num_fds loops ready_out wakefd s in
      let (r, ran) =
        start_groups_total left status (u32 (total + c)) num_fds loops ready_out wakefd tab' s' in
      let s'' = (reap_workers S status tab' (u32 (total + c)) true s').1 in
      elim (Bool-cases (c == u32 (num_fds * 2))) [
        | inl all ↦ (r, ground arith)
        | inr short ↦ (creating_failed tab' s'', ground arith)
      ]

  module _ (forked : S.State → ℕ) (C : IsCount S forked) where
    -- Where `pipe` never fails, only a successful `fork` adds to the count of workers, and `2 *
    -- num_fds` fits 32 bits: `group` returns, and has forked `2 * num_fds` workers and returns
    -- that number, or has forked fewer and returns one less than it forked (0, if it forked none).
    pub group-created :
        (tab : Table) (tab_offset num_fds loops ready_out wakefd : ℕ) (s : S.State)
        → num_fds * 2 < 2 ^ 32
        → (count : ℕ) × (tab' : Table) × (s' : S.State) × (group S tab tab_offset num_fds loops
              ready_out wakefd s
            ≡ done (count, tab', s'))
          × (forked s ≤ forked s')
          × Returns S forked C num_fds (forked s' - forked s) count
    group-created tab tab_offset num_fds loops ready_out wakefd s small =
        let ((count, tab', s'), ran) =
          group_total tab tab_offset num_fds loops ready_out wakefd s in
        let (more, returns) =
          group-Returns S forked C tab tab_offset num_fds loops ready_out wakefd s count tab' s'
            small ran in
        (count, tab', s', ran, more, returns)

    -- Where `pipe` never fails, only a successful `fork` adds to the count of workers, only `kill`
    -- to the count of signals and only `wait` to the count of waits, the loop over the groups
    -- starts with a total that is the count of workers, and the expected total fits 32 bits: the
    -- loop ends with all workers, their exact number as the total, and no signal and no wait; or
    -- in the error case with fewer workers, after as many signals and as many waits as the workers
    -- that were forked, or one less of both.
    pub start_groups-created :
        (told awaited : S.State → ℕ) (R : IsReaping S told awaited) (groups : ℕ) (status : Bool)
        (num_fds loops ready_out wakefd : ℕ) (tab : Table) (s : S.State) (expected : ℕ)
        → expected ≡ forked s + groups * (num_fds * 2)
        → expected < 2 ^ 32
        → num_fds * 2 < 2 ^ 32
        → (r : Start S) × (start_groups S groups status
              (forked s)
              num_fds
              loops
              ready_out
              wakefd
              tab
              s
            ≡ done r)
          × Starts S forked C told awaited R expected (told s) (awaited s) r
    start_groups-created told awaited R groups status num_fds loops ready_out wakefd tab s expected
          e small fits =
        let (r, ran) =
          start_groups_total groups status (forked s) num_fds loops ready_out wakefd tab s in
        (
          r,
          ran,
          start_groups-Starts S forked C told awaited R groups status num_fds loops ready_out wakefd
              tab s r expected e small fits ran,
        )
