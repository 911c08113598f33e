-- ===== src/Hackbench/Workers/Created.antt =====
-- How many workers `group` of hackbench/hackbench.c has created, against the number it returns.
use linux_scheduler_comparis.Base.{
  ℕ, zero, suc, ◌+◌, ◌-◌, ◌*◌, ◌^◌, ◌≤◌, ◌<◌, ◌≡◌, ◌⊎◌, inl, inr, refl, subst, ◌∙◌, Option, none,
  some, List, [], ◌∷◌, ◌++◌, arith, if◌then◌else◌, Bool-cases, Option-cases,
}
use linux_scheduler_comparis.Base.Int.{ℤ, minus_one, eqb_ℤ}
use linux_scheduler_comparis.Base.Outcome.{done, ◌>>=◌, >>=-eq-done, done-injective}
use linux_scheduler_comparis.Hackbench.Workers.{
  ReceiverContext, SenderContext, Worker, receiver, sender, System, u32, Table, write_entry, fdpair,
  create_worker, Receivers, returned, all_made, short_of, make_receivers, make_senders, close_all,
  finish_group, group,
}

-- A count of the workers forked so far: a successful `fork` adds one, and nothing else changes it.
pub record IsCount (S : System) (forked : S.State → ℕ) : Type 0 where
  pub forked-fork :
      (w : Worker) (s : S.State)
      → forked (S.fork w s).1 ≡ (if eqb_ℤ (S.fork w s).0 minus_one then forked s else forked s + 1)
  pub forked-malloc : (s : S.State) → forked (S.malloc s).1 ≡ forked s
  pub forked-pipe : (s : S.State) → forked (S.pipe s).1 ≡ forked s
  pub forked-close : (fd : ℕ) (s : S.State) → forked (S.close fd s) ≡ forked s
  pub forked-kill : (pid : ℤ) (s : S.State) → forked (S.kill pid s) ≡ forked s
  pub forked-ignore_sigterm : (s : S.State) → forked (S.ignore_sigterm s) ≡ forked s
  pub forked-wait : (s : S.State) → forked (S.wait s).1 ≡ forked s

module _ (S : System) (forked : S.State → ℕ) (C : IsCount S forked) where
  -- What the loop over the receivers has created, from `before`, with `left` rounds from round `i`.
  abbrev Made : ℕ → ℕ → ℕ → Receivers S → Type 0
  Made left i before (returned count tab s) =
      (before ≤ forked s)
      × (forked s < before + left)
      × (count ≡ short_of S (i + (forked s - before)))
  Made left i before (all_made out_fds tab s) = forked s ≡ before + left

  make_receivers-Made :
      (left i tab_offset num_fds loops ready_out wakefd : ℕ) (out_fds : List ℕ) (tab : Table)
      (s : S.State) (r : Receivers S)
      → make_receivers S left i tab_offset num_fds loops ready_out wakefd out_fds tab s ≡ done r
      → Made left i (forked s) r
  unfolding make_receivers fdpair create_worker
  make_receivers-Made zero i tab_offset num_fds loops ready_out wakefd out_fds tab s
        (all_made _ _ s') h =
      ground arith
  make_receivers-Made zero i tab_offset num_fds loops ready_out wakefd out_fds tab s
        (returned _ _ s') h =
      ground arith
  make_receivers-Made (suc left) i tab_offset num_fds loops ready_out wakefd out_fds tab s r h =
      elim (Option-cases (S.pipe (S.malloc s).1).0) [
        | inl broken ↦ ground (arith, C.forked-malloc s)
        | inr (fds, made) ↦
            let ctx : ReceiverContext = record {
              num_packets = num_fds * loops;
              in_fds = fds;
              ready_out = ready_out;
              wakefd = wakefd;
            } in
            let s2 = (S.pipe (S.malloc s).1).1 in
            let forking = S.fork (receiver ctx) s2 in
            let ih =
              make_receivers-Made left (i + 1) tab_offset num_fds loops ready_out wakefd
                (out_fds ++ (fds.1 ∷ [])) (write_entry tab (u32 (tab_offset + i)) forking.0)
                (S.close fds.0 forking.1) r in
            ground (
              arith,
              ih,
              C.forked-malloc s,
              C.forked-pipe (S.malloc s).1,
              C.forked-fork (receiver ctx) s2,
              C.forked-close fds.0 forking.1,
            )
      ]

  make_senders-forked :
      (left i tab_offset : ℕ) (ctx : SenderContext) (tab : Table) (s : S.State) (early : Option ℕ)
      (tab' : Table) (s' : S.State)
      → make_senders S left i tab_offset ctx tab s ≡ (early, tab', s')
      → ((early ≡ none) × (forked s' ≡ forked s + left))
        ⊎ ((forked s ≤ forked s')
            × (forked s' < forked s + left)
            × (early ≡ some (ctx.num_fds + (i + (forked s' - forked s)) - 1)))
  unfolding make_senders create_worker
  make_senders-forked zero i tab_offset ctx tab s early tab' s' h = inl (ground arith)
  make_senders-forked (suc left) i tab_offset ctx tab s early tab' s' h =
      let forking = S.fork (sender ctx) s in
      let tab1 = write_entry tab (u32 (tab_offset + ctx.num_fds + i)) forking.0 in
      let ih = make_senders-forked left (i + 1) tab_offset ctx tab1 forking.1 early tab' s' in
      ground (arith, ih, C.forked-fork (sender ctx) s)

  close_all-forked : (fds : List ℕ) (s : S.State) → forked (close_all S fds s) ≡ forked s
  unfolding close_all
  close_all-forked [] s = refl
  close_all-forked (fd ∷ fds) s = close_all-forked fds (S.close fd s) ∙ C.forked-close fd s

  -- `group` against what it has created: all `2 * num_fds` workers and this number, or fewer
  -- workers and a number that is one too small, unless there is no worker at all.
  abbrev pub Returns : ℕ → ℕ → ℕ → Type 0
  Returns num_fds created count =
      ((created ≡ num_fds * 2) × (count ≡ num_fds * 2))
      ⊎ ((created < num_fds * 2) × (count ≡ created - 1))

  finish_group-Returns :
      (tab_offset num_fds ready_out wakefd before : ℕ) (r : Receivers S)
      → num_fds * 2 < 2 ^ 32
      → Made num_fds 0 before r
      → (count : ℕ) (tab' : Table) (s' : S.State)
      → finish_group S tab_offset num_fds ready_out wakefd r ≡ (count, tab', s')
      → (before ≤ forked s') × Returns num_fds (forked s' - before) count
  unfolding finish_group
  finish_group-Returns tab_offset num_fds ready_out wakefd before (returned c tab s) small m count
        tab' s' h =
      ground arith
  finish_group-Returns tab_offset num_fds ready_out wakefd before (all_made out_fds tab s) small m
        count tab' s' h =
      let ctx : SenderContext = record {
        num_fds = num_fds;
        ready_out = ready_out;
        wakefd = wakefd;
        out_fds = out_fds;
      } in
      let made = make_senders S num_fds 0 tab_offset ctx tab s in
      let senders = make_senders-forked num_fds 0 tab_offset ctx tab s made.0 made.1 made.2 refl in
      let shut = close_all-forked out_fds made.2 in ground (arith, senders, shut)

  -- Where only a successful `fork` adds to the count of workers, and `2 * num_fds` fits 32 bits:
  -- if `group` returns, it has forked `2 * num_fds` workers and returns that number, or it has
  -- forked fewer and returns one less than it forked (0, if it forked none).
  pub group-Returns :
      (tab : Table) (tab_offset num_fds loops ready_out wakefd : ℕ) (s : S.State) (count : ℕ)
      (tab' : Table) (s' : S.State)
      → num_fds * 2 < 2 ^ 32
      → group S tab tab_offset num_fds loops ready_out wakefd s ≡ done (count, tab', s')
      → (forked s ≤ forked s') × Returns num_fds (forked s' - forked s) count
  unfolding group
  group-Returns tab tab_offset num_fds loops ready_out wakefd s count tab' s' small h =
      elim (Bool-cases (S.malloc s).0) [
        | inl allocated ↦
            let making =
              make_receivers S num_fds 0 tab_offset num_fds loops ready_out wakefd [] tab
                (S.malloc s).1 in
            let bound : (making >>= λ made.
            done (finish_group S tab_offset num_fds ready_out wakefd made))
                ≡ done (count, tab', s') =
              ground arith in
            let (r, made, last) = >>=-eq-done making _ bound in
            let created =
              make_receivers-Made num_fds 0 tab_offset num_fds loops ready_out wakefd [] tab
                (S.malloc s).1 r made in
            let returns =
              finish_group-Returns tab_offset num_fds ready_out wakefd (forked (S.malloc s).1) r
                small created count tab' s' (done-injective last) in
            subst (λ f. (f ≤ forked s') × Returns num_fds (forked s' - f) count) (C.forked-malloc s)
              returns
        | inr refused ↦ ground (arith, C.forked-malloc s)
      ]
