-- ===== src/Launcher/Trial/Count.antt =====
-- How many children a trial of launcher/launcher.cpp leaves, on all its branches.
use linux_scheduler_comparis.Base.{
  ℕ, suc, ◌+◌, ◌*◌, ◌^◌, ◌≡◌, ap, subst, Bool, true, false, List, [], ◌∷◌, ◌++◌, length, Text,
  arith, Bool-cases, inl, inr, if◌then◌else◌,
}
use linux_scheduler_comparis.Base.Int.{ℤ, eqb_ℤ}
use linux_scheduler_comparis.Base.Outcome.{done, >>=-eq-done, done-injective}
use linux_scheduler_comparis.Process.{System, IsLawful, TestRun, RunProg}
use linux_scheduler_comparis.Process.Count.{NeverFails, KeepsCount, length-fork, length-wait}
use linux_scheduler_comparis.Launcher.Args.{Stream}
use linux_scheduler_comparis.Launcher.Trial.{
  hackbench_child, Message, letting_run, waited_wrong, file_time, cout_time, not_hackbench,
  finish_trial, run_trial,
}

-- How often a log says that the wrong child was waited for.
unfoldable pub wrong_waits : List Message → ℕ
wrong_waits [] = 0
wrong_waits (letting_run ∷ log) = wrong_waits log
wrong_waits (waited_wrong spawned waited hackbench ∷ log) = suc (wrong_waits log)
wrong_waits (file_time out ns ∷ log) = wrong_waits log
wrong_waits (cout_time ns ∷ log) = wrong_waits log
wrong_waits (not_hackbench pid ∷ log) = wrong_waits log

pub wrong_waits-append :
    (log more : List Message) → wrong_waits (log ++ more) ≡ wrong_waits log + wrong_waits more
unfolding wrong_waits
wrong_waits-append [] more = omega arith
wrong_waits-append (letting_run ∷ log) more = wrong_waits-append log more
wrong_waits-append (waited_wrong _ _ _ ∷ log) more = omega (arith, wrong_waits-append log more)
wrong_waits-append (file_time _ _ ∷ log) more = wrong_waits-append log more
wrong_waits-append (cout_time _ ∷ log) more = wrong_waits-append log more
wrong_waits-append (not_hackbench _ ∷ log) more = wrong_waits-append log more

-- A log's children: those that are there, less those that its wrong waits have left.
abbrev pub Balanced : (S : System) → (S.State → List ℤ) → ℕ → S.State × List Message → Type 0
Balanced S children base (s, log) = length (children s) ≡ base + wrong_waits log

module _ (S : System) (children : S.State → List ℤ) (L : IsLawful S children)
    (F : NeverFails S children) where
  timed_log :
      (use_out : Bool) (out : Stream) (ns : ℕ) (log : List Message)
      → wrong_waits ((if use_out then log ++ file_time out ns ∷ [] else log) ++ cout_time ns ∷ [])
        ≡ wrong_waits log
  unfolding wrong_waits
  timed_log true out ns log = omega (
    arith,
    wrong_waits-append (log ++ file_time out ns ∷ []) (cout_time ns ∷ []),
    wrong_waits-append log (file_time out ns ∷ []),
  )
  timed_log false out ns log = omega (arith, wrong_waits-append log (cout_time ns ∷ []))

  ended :
      (base : ℕ) (b : Bool) (pid : ℤ) (t : S.State) (log : List Message)
      → length (children t) ≡ base + wrong_waits log
      → Balanced S children base (if b then (t, log) else (t, log ++ not_hackbench pid ∷ []))
  unfolding wrong_waits
  ended base true pid t log h = h
  ended base false pid t log h = omega (arith, wrong_waits-append log (not_hackbench pid ∷ []))

  module _ (run_prog : RunProg S) where
    -- With hackbench as one child too many, its end restores the balance.
    pub finish_trial-Balanced :
        (base : ℕ) (hackbench : ℤ) (run : TestRun) (out : Stream) (use_out : Bool) (s : S.State)
        (log : List Message)
        → length (children s) ≡ base + wrong_waits log + 1
        → Balanced S children base (finish_trial S run_prog hackbench run out use_out (s, log))
    unfolding finish_trial
    finish_trial-Balanced base hackbench run out use_out s log h =
        elim (Bool-cases (eqb_ℤ run.waited run.spawned)) [
          | inl right ↦
              let told = S.sigterm hackbench s in
              let same = ap length (L.children-sigterm hackbench s) in
              let one_less = length-wait S children L F told (omega (arith, same, h)) in
              rw right (
                ended base (eqb_ℤ (S.wait told).0 hackbench) (S.wait told).0 (S.wait told).1
                  ((if use_out then log ++ file_time out run.nanoseconds ∷ [] else log)
                    ++ cout_time run.nanoseconds ∷ [])
                  (omega (arith, same, one_less, h, timed_log use_out out run.nanoseconds log)))
          | inr wrong ↦ rw wrong (
              unfold wrong_waits in
              omega (
                arith,
                h,
                wrong_waits-append log (waited_wrong run.spawned run.waited hackbench ∷ []),
              ))
        ]

    -- A trial that ends has kept the balance, whatever its waits gave.
    pub run_trial-Balanced :
        KeepsCount S children run_prog
        → (base : ℕ) (path pairs : Text) (pin : ℤ) (out : Stream) (use_out : Bool) (s : S.State)
          (log : List Message) (w : S.State × List Message)
        → run_trial S run_prog path pairs pin out use_out (s, log) ≡ done w
        → length (children s) ≡ base + wrong_waits log
        → Balanced S children base w
    unfolding run_trial
    run_trial-Balanced keeps base path pairs pin out use_out s log w h balanced =
        let child = hackbench_child path pairs pin in
        let (r, ran, rest) =
          >>=-eq-done (run_prog pin (S.sleep_for (10 * 10 ^ 9) (S.fork child s).1)) _ h in
        let kept = keeps pin _ r ran in
        let slept = ap length (L.children-sleep_for (10 * 10 ^ 9) (S.fork child s).1) in
        let forked = length-fork S children L F child s in
        let noted : wrong_waits (log ++ letting_run ∷ []) ≡ wrong_waits log =
          unfold wrong_waits in omega (arith, wrong_waits-append log (letting_run ∷ [])) in
        subst (Balanced S children base) (done-injective rest) (
          finish_trial-Balanced base (S.fork child s).0 r.0 out use_out r.1
            (log ++ letting_run ∷ []) (omega (arith, kept, slept, forked, noted, balanced)))
