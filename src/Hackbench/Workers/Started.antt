-- ===== src/Hackbench/Workers/Started.antt =====
-- The loop of `main` in hackbench/hackbench.c that starts the groups: what it has counted, and
-- whom it tells to end when a worker cannot be created.
use linux_scheduler_comparis.Base.{
  ℕ, zero, suc, ◌+◌, ◌*◌, ◌^◌, ◌≤◌, ◌<◌, ◌≡◌, inl, inr, refl, subst, ◌∙◌, Bool, true, false, arith,
  ◌==◌, Bool-cases,
}
use linux_scheduler_comparis.Base.Int.{ℤ}
use linux_scheduler_comparis.Base.Outcome.{done, >>=-eq-done, done-injective}
use linux_scheduler_comparis.Hackbench.Workers.{
  System, u32, Table, group, signal_from, signal_workers, reap_rounds, reap_workers, Start, started,
  creating_failed, start_groups,
}
use linux_scheduler_comparis.Hackbench.Workers.Created.{IsCount, group-Returns}
use linux_scheduler_comparis.Hackbench.Workers.Kept.{IsKept, group-kept}

-- Counts of the calls of `kill` and of `wait` so far: nothing else changes them.
pub record IsReaping (S : System) (told awaited : S.State → ℕ) : Type 0 where
  pub told-IsKept : IsKept S told
  pub awaited-IsKept : IsKept S awaited
  pub told-kill : (pid : ℤ) (s : S.State) → told (S.kill pid s) ≡ told s + 1
  pub told-ignore_sigterm : (s : S.State) → told (S.ignore_sigterm s) ≡ told s
  pub told-wait : (s : S.State) → told (S.wait s).1 ≡ told s
  pub awaited-kill : (pid : ℤ) (s : S.State) → awaited (S.kill pid s) ≡ awaited s
  pub awaited-ignore_sigterm : (s : S.State) → awaited (S.ignore_sigterm s) ≡ awaited s
  pub awaited-wait : (s : S.State) → awaited (S.wait s).1 ≡ awaited s + 1

module _ (S : System) (forked : S.State → ℕ) (C : IsCount S forked) where
  signal_from-forked :
      (left i : ℕ) (tab : Table) (s : S.State) → forked (signal_from S left i tab s) ≡ forked s
  unfolding signal_from
  signal_from-forked zero i tab s = refl
  signal_from-forked (suc left) i tab s =
      signal_from-forked left (i + 1) tab (S.kill (tab i) s) ∙ C.forked-kill (tab i) s

  reap_rounds-forked :
      (left rc : ℕ) (status : Bool) (s : S.State)
      → forked (reap_rounds S left rc status s).1 ≡ forked s
  unfolding reap_rounds
  reap_rounds-forked zero rc status s = refl
  reap_rounds-forked (suc left) rc status s = reap_rounds-forked left _ _ _ ∙ C.forked-wait s

  reap_workers-forked :
      (status : Bool) (tab : Table) (totchld : ℕ) (dokill : Bool) (s : S.State)
      → forked (reap_workers S status tab totchld dokill s).1 ≡ forked s
  unfolding reap_workers signal_workers
  reap_workers-forked status tab totchld true s =
      reap_rounds-forked totchld 0 status _
      ∙ (signal_from-forked totchld 0 tab (S.ignore_sigterm s) ∙ C.forked-ignore_sigterm s)
  reap_workers-forked status tab totchld false s = reap_rounds-forked totchld 0 status s

  module _ (told awaited : S.State → ℕ) (R : IsReaping S told awaited) where
    signal_from-told :
        (left i : ℕ) (tab : Table) (s : S.State)
        → (told (signal_from S left i tab s) ≡ told s + left)
          × (awaited (signal_from S left i tab s) ≡ awaited s)
    unfolding signal_from
    signal_from-told zero i tab s = omega arith
    signal_from-told (suc left) i tab s =
        let ih = signal_from-told left (i + 1) tab (S.kill (tab i) s) in
        ground (arith, ih, R.told-kill (tab i) s, R.awaited-kill (tab i) s)

    reap_rounds-awaited :
        (left rc : ℕ) (status : Bool) (s : S.State)
        → (told (reap_rounds S left rc status s).1 ≡ told s)
          × (awaited (reap_rounds S left rc status s).1 ≡ awaited s + left)
    unfolding reap_rounds
    reap_rounds-awaited zero rc status s = omega arith
    reap_rounds-awaited (suc left) rc status s =
        let (same, more) = reap_rounds-awaited left _ _ (S.wait s).1 in
        (same ∙ R.told-wait s, more ∙ omega (arith, R.awaited-wait s))

    -- `reap_workers` with `dokill`: each of the workers of the table is told, and awaited.
    pub reap_workers-told :
        (status : Bool) (tab : Table) (totchld : ℕ) (s : S.State)
        → (told (reap_workers S status tab totchld true s).1 ≡ told s + totchld)
          × (awaited (reap_workers S status tab totchld true s).1 ≡ awaited s + totchld)
    unfolding reap_workers signal_workers
    reap_workers-told status tab totchld s =
        let s1 = S.ignore_sigterm s in
        let (signalled, quiet) = signal_from-told totchld 0 tab s1 in
        let (same, more) = reap_rounds-awaited totchld 0 status (signal_from S totchld 0 tab s1) in
        (
          same ∙ (signalled ∙ omega (arith, R.told-ignore_sigterm s)),
          more ∙ omega (arith, quiet, R.awaited-ignore_sigterm s),
        )

    -- From counts `t` of `kill` and `a` of `wait`: all workers and their exact number; or a failure
    -- that tells and awaits all workers but one at most.
    abbrev pub Starts : ℕ → ℕ → ℕ → Start S → Type 0
    Starts expected t a (started total tab s) =
        (total ≡ expected) × (forked s ≡ expected) × (told s ≡ t) × (awaited s ≡ a)
    Starts expected t a (creating_failed tab s) =
        (n : ℕ) × (told s ≡ t + n)
        × (awaited s ≡ a + n)
        × (n ≤ forked s)
        × (forked s ≤ n + 1)
        × (forked s < expected)

    -- If the loop over the groups ends.
    pub start_groups-Starts :
        (left : ℕ) (status : Bool) (num_fds loops ready_out wakefd : ℕ) (tab : Table) (s : S.State)
        (r : Start S) (expected : ℕ)
        → expected ≡ forked s + left * (num_fds * 2)
        → expected < 2 ^ 32
        → num_fds * 2 < 2 ^ 32
        → start_groups S left status (forked s) num_fds loops ready_out wakefd tab s ≡ done r
        → Starts expected (told s) (awaited s) r
    unfolding start_groups
    start_groups-Starts zero status num_fds loops ready_out wakefd tab s (started _ _ _) expected e
          small fits h =
        ground arith
    start_groups-Starts zero status num_fds loops ready_out wakefd tab s (creating_failed _ _)
          expected e small fits h =
        ground arith
    start_groups-Starts (suc left) status num_fds loops ready_out wakefd tab s r expected e small
          fits h =
        let (g, made, rest) =
          >>=-eq-done (group S tab (forked s) num_fds loops ready_out wakefd s) _ h in
        let (kept, returns) =
          group-Returns S forked C tab (forked s) num_fds loops ready_out wakefd s g.0 g.1 g.2 fits
            made in
        let told_kept =
          group-kept S told R.told-IsKept tab (forked s) num_fds loops ready_out wakefd s g made in
        let awaited_kept =
          group-kept S awaited R.awaited-IsKept tab (forked s) num_fds loops ready_out wakefd s g
            made in
        let n = u32 (forked s + g.0) in
        let s2 = (reap_workers S status g.1 n true g.2).1 in
        let ended = reap_workers-forked status g.1 n true g.2 in
        let (signalled, waited) = reap_workers-told status g.1 n g.2 in
        elim (Bool-cases (g.0 == u32 (num_fds * 2))) [
          | inl all_made ↦
              let total : n ≡ forked g.2 = ground arith in
              let run : start_groups S left status n num_fds loops ready_out wakefd g.1 g.2
                  ≡ done r =
                ground arith in
              subst (λ (t : ℕ). Starts expected t (awaited s) r) told_kept
                (subst (λ (a : ℕ). Starts expected (told g.2) a r) awaited_kept
                  (start_groups-Starts left status num_fds loops ready_out wakefd g.1 g.2 r expected
                    (ground arith) small fits (rw total at run)))
          | inr failed ↦
              let over : done (creating_failed g.1 s2) ≡ done r = ground arith in
              subst (Starts expected (told s) (awaited s)) (done-injective over)
                (n, ground arith, ground arith, ground arith, ground arith, ground arith)
        ]
