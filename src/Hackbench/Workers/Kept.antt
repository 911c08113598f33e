-- ===== src/Hackbench/Workers/Kept.antt =====
-- What `group` of hackbench/hackbench.c leaves as it is: a count of calls that it does not make.
use linux_scheduler_comparis.Base.{
  ℕ, zero, suc, ◌+◌, ◌*◌, ◌≡◌, inl, inr, refl, ◌∙◌, List, [], ◌∷◌, ◌++◌, arith, Bool-cases,
  Option-cases,
}
use linux_scheduler_comparis.Base.Outcome.{done, ◌>>=◌, >>=-eq-done, done-injective}
use linux_scheduler_comparis.Hackbench.Workers.{
  ReceiverContext, SenderContext, Worker, receiver, sender, System, u32, Table, write_entry, fdpair,
  create_worker, Receivers, returned, all_made, make_receivers, make_senders, close_all,
  finish_group, group,
}

-- The calls of `group` leave the count as it is.
pub record IsKept (S : System) (count : S.State → ℕ) : Type 0 where
  pub kept-fork : (w : Worker) (s : S.State) → count (S.fork w s).1 ≡ count s
  pub kept-malloc : (s : S.State) → count (S.malloc s).1 ≡ count s
  pub kept-pipe : (s : S.State) → count (S.pipe s).1 ≡ count s
  pub kept-close : (fd : ℕ) (s : S.State) → count (S.close fd s) ≡ count s

module _ (S : System) (count : S.State → ℕ) (K : IsKept S count) where
  abbrev state_of : Receivers S → S.State
  state_of (returned n tab s) = s
  state_of (all_made out_fds tab s) = s

  make_receivers-kept :
      (left i tab_offset num_fds loops ready_out wakefd : ℕ) (out_fds : List ℕ) (tab : Table)
      (s : S.State) (r : Receivers S)
      → make_receivers S left i tab_offset num_fds loops ready_out wakefd out_fds tab s ≡ done r
      → count (state_of r) ≡ count s
  unfolding make_receivers fdpair create_worker
  make_receivers-kept zero i tab_offset num_fds loops ready_out wakefd out_fds tab s
        (all_made _ _ s') h =
      ground arith
  make_receivers-kept zero i tab_offset num_fds loops ready_out wakefd out_fds tab s
        (returned _ _ s') h =
      ground arith
  make_receivers-kept (suc left) i tab_offset num_fds loops ready_out wakefd out_fds tab s r h =
      elim (Option-cases (S.pipe (S.malloc s).1).0) [
        | inl broken ↦ ground (arith, K.kept-malloc s)
        | inr (fds, made) ↦
            let ctx : ReceiverContext = record {
              num_packets = num_fds * loops;
              in_fds = fds;
              ready_out = ready_out;
              wakefd = wakefd;
            } in
            let s2 = (S.pipe (S.malloc s).1).1 in
            let forking = S.fork (receiver ctx) s2 in
            let ih =
              make_receivers-kept left (i + 1) tab_offset num_fds loops ready_out wakefd
                (out_fds ++ (fds.1 ∷ [])) (write_entry tab (u32 (tab_offset + i)) forking.0)
                (S.close fds.0 forking.1) r in
            ground (
              arith,
              ih,
              K.kept-malloc s,
              K.kept-pipe (S.malloc s).1,
              K.kept-fork (receiver ctx) s2,
              K.kept-close fds.0 forking.1,
            )
      ]

  make_senders-kept :
      (left i tab_offset : ℕ) (ctx : SenderContext) (tab : Table) (s : S.State)
      → count (make_senders S left i tab_offset ctx tab s).2 ≡ count s
  unfolding make_senders create_worker
  make_senders-kept zero i tab_offset ctx tab s = refl
  make_senders-kept (suc left) i tab_offset ctx tab s =
      let forking = S.fork (sender ctx) s in
      let tab1 = write_entry tab (u32 (tab_offset + ctx.num_fds + i)) forking.0 in
      ground (
        arith,
        make_senders-kept left (i + 1) tab_offset ctx tab1 forking.1,
        K.kept-fork (sender ctx) s,
      )

  close_all-kept : (fds : List ℕ) (s : S.State) → count (close_all S fds s) ≡ count s
  unfolding close_all
  close_all-kept [] s = refl
  close_all-kept (fd ∷ fds) s = close_all-kept fds (S.close fd s) ∙ K.kept-close fd s

  finish_group-kept :
      (tab_offset num_fds ready_out wakefd : ℕ) (r : Receivers S)
      → count (finish_group S tab_offset num_fds ready_out wakefd r).2 ≡ count (state_of r)
  unfolding finish_group
  finish_group-kept tab_offset num_fds ready_out wakefd (returned c tab s) = refl
  finish_group-kept tab_offset num_fds ready_out wakefd (all_made out_fds tab s) =
      let ctx : SenderContext = record {
        num_fds = num_fds;
        ready_out = ready_out;
        wakefd = wakefd;
        out_fds = out_fds;
      } in
      let made = make_senders S num_fds 0 tab_offset ctx tab s in
      ground
        (arith, make_senders-kept num_fds 0 tab_offset ctx tab s, close_all-kept out_fds made.2)

  pub group-kept :
      (tab : Table) (tab_offset num_fds loops ready_out wakefd : ℕ) (s : S.State)
      (r : ℕ × Table × S.State)
      → group S tab tab_offset num_fds loops ready_out wakefd s ≡ done r
      → count r.2 ≡ count s
  unfolding group
  group-kept tab tab_offset num_fds loops ready_out wakefd s r h =
      elim (Bool-cases (S.malloc s).0) [
        | inl allocated ↦
            let making =
              make_receivers S num_fds 0 tab_offset num_fds loops ready_out wakefd [] tab
                (S.malloc s).1 in
            let bound : (making >>= λ made.
            done (finish_group S tab_offset num_fds ready_out wakefd made))
                ≡ done r =
              ground arith in
            let (m, made, last) = >>=-eq-done making _ bound in
            ground (
              arith,
              make_receivers-kept num_fds 0 tab_offset num_fds loops ready_out wakefd [] tab
                  (S.malloc s).1 m made,
              finish_group-kept tab_offset num_fds ready_out wakefd m,
              done-injective last,
              K.kept-malloc s,
            )
        | inr refused ↦ ground (arith, K.kept-malloc s)
      ]
