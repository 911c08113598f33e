-- ===== src/Launcher/Trial/Children.antt =====
-- Which children a trial of launcher/launcher.cpp leaves, and what it logs.
use mathlib.Core.List.{Perm, perm-cons}
use mathlib.Core.List.Perm
use linux_scheduler_comparis.Base.{
  ℕ, ◌*◌, ◌^◌, Bool, true, false, List, [], ◌∷◌, ◌++◌, ◌≡◌, ◌≢◌, refl, ap, append_assoc, subst,
  Text, if◌then◌else◌,
}
use linux_scheduler_comparis.Base.Int.{ℤ, minus_one, eqb_ℤ_self}
use linux_scheduler_comparis.Base.Outcome.{done}
use linux_scheduler_comparis.Process.{System, IsLawful, TestRun, RunProg, IsTestProgram}
use linux_scheduler_comparis.Launcher.Args.{Stream}
use linux_scheduler_comparis.Launcher.Trial.{
  hackbench_child, Message, letting_run, file_time, cout_time, finish_trial, run_trial,
}

abbrev pub times : Stream → Bool → ℕ → List Message
times out use_out ns = if use_out then file_time out ns ∷ cout_time ns ∷ [] else cout_time ns ∷ []

logged :
    (use_out : Bool) (out : Stream) (ns : ℕ) (log : List Message)
    → (if use_out then log ++ file_time out ns ∷ [] else log) ++ cout_time ns ∷ []
      ≡ log ++ times out use_out ns
logged true out ns log = append_assoc log (file_time out ns ∷ []) (cout_time ns ∷ [])
logged false out ns log = refl

module _ (S : System) (path pairs : Text) (pin : ℤ) (s : S.State) where
  -- The pid that the fork of hackbench gives, and the state that `run_prog` starts from.
  abbrev pub hackbench_pid : ℤ
  hackbench_pid = (S.fork (hackbench_child path pairs pin) s).0

  abbrev pub behind_sleep : S.State
  behind_sleep = S.sleep_for (10 * 10 ^ 9) (S.fork (hackbench_child path pairs pin) s).1

  -- The last `wait`, from the state behind `run_prog`.
  abbrev pub last_wait : S.State → ℤ × S.State
  last_wait s2 = S.wait (S.sigterm hackbench_pid s2)

module _ (S : System) (children : S.State → List ℤ) (L : IsLawful S children) (run_prog : RunProg S)
    (P : IsTestProgram S children run_prog) where
  -- What the test program leaves behind the fork of hackbench.
  behind_run_prog :
      (path pairs : Text) (pin : ℤ) (s t : S.State) (run : TestRun)
      → (S.fork (hackbench_child path pairs pin) s).0 ≢ minus_one
      → run_prog pin (S.sleep_for (10 * 10 ^ 9) (S.fork (hackbench_child path pairs pin) s).1)
        ≡ done (run, t)
      → run.spawned ≢ minus_one
      → run.waited ≢ minus_one
      → Perm
          (run.spawned ∷ (S.fork (hackbench_child path pairs pin) s).0 ∷ children s)
          (run.waited ∷ children t)
  behind_run_prog path pairs pin s t run forked ran spawned waited =
      rw
        (
          ← L.children-fork (hackbench_child path pairs pin) s forked,
          ← L.children-sleep_for (10 * 10 ^ 9),
        )
        (P pin _ run t ran spawned waited)

  -- Over a lawful system and a test program that forks one child and waits for one: where the fork
  -- of hackbench succeeds, the test program returns with a child that it forked and waited for,
  -- and the last wait gives hackbench, the trial ends, logs the time to the file if one is used
  -- and to the standard output, and leaves exactly the children that it found.
  pub run_trial-children :
      (path pairs : Text) (pin : ℤ) (out : Stream) (use_out : Bool) (s s2 : S.State)
      (log : List Message) (run : TestRun)
      → hackbench_pid S path pairs pin s ≢ minus_one
      → run_prog pin (behind_sleep S path pairs pin s) ≡ done (run, s2)
      → run.spawned ≢ minus_one
      → run.waited ≡ run.spawned
      → (last_wait S path pairs pin s s2).0 ≡ hackbench_pid S path pairs pin s
      → (run_trial S run_prog path pairs pin out use_out (s, log)
          ≡ done (
            (last_wait S path pairs pin s s2).1,
            (log ++ letting_run ∷ []) ++ times out use_out run.nanoseconds,
          ))
        × Perm (children (last_wait S path pairs pin s s2).1) (children s)
  run_trial-children path pairs pin out use_out s s2 log run forked ran spawned waited last =
      let hackbench = (S.fork (hackbench_child path pairs pin) s).0 in
      let told = S.sigterm hackbench s2 in
      let one_each =
        behind_run_prog path pairs pin s s2 run forked ran spawned (rw waited spawned) in
      let first : Perm (hackbench ∷ children s) (children s2) = (perm-cons run.spawned).0 (
        subst (λ p. Perm (run.spawned ∷ hackbench ∷ children s) (p ∷ children s2)) waited
          one_each) in
      let second : Perm (children s2) (hackbench ∷ children (S.wait told).1) =
        subst (λ p. Perm (children s2) (p ∷ children (S.wait told).1)) last
          (rw (← L.children-sigterm hackbench s2) (L.children-wait told (rw last forked))) in
      (
        unfold run_trial finish_trial in
            rw (ran, eqb_ℤ_self run.waited run.spawned waited, eqb_ℤ_self _ _ last)
              (ap (λ l. done ((S.wait told).1, l))
                (logged use_out out run.nanoseconds (log ++ letting_run ∷ []))),
        Perm.symm ((perm-cons hackbench).0 (Perm.trans first second)),
      )

module _ (S : System) (run_prog : RunProg S) where
  -- Where the fork of hackbench fails, the test program returns the child that it forked, and a
  -- wait behind a signal to pid -1 fails, the trial sends that signal, which stands for every
  -- process, and logs the time as if nothing was wrong.
  pub run_trial-kill_all :
      (path pairs : Text) (pin : ℤ) (out : Stream) (use_out : Bool) (s s2 : S.State)
      (log : List Message) (run : TestRun)
      → hackbench_pid S path pairs pin s ≡ minus_one
      → run_prog pin (behind_sleep S path pairs pin s) ≡ done (run, s2)
      → run.waited ≡ run.spawned
      → (S.wait (S.sigterm minus_one s2)).0 ≡ minus_one
      → run_trial S run_prog path pairs pin out use_out (s, log)
        ≡ done (
          (S.wait (S.sigterm minus_one s2)).1,
          (log ++ letting_run ∷ []) ++ times out use_out run.nanoseconds,
        )
  unfolding run_trial finish_trial
  run_trial-kill_all path pairs pin out use_out s s2 log run failed ran waited nothing =
      rw (ran, eqb_ℤ_self run.waited run.spawned waited, failed, eqb_ℤ_self _ _ nothing)
        (ap (λ l. done ((S.wait (S.sigterm minus_one s2)).1, l))
          (logged use_out out run.nanoseconds (log ++ letting_run ∷ [])))
