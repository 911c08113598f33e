-- ===== src/Interrupt/Trial/Children.antt =====
-- How many children a trial of gzip/hackbench_interupt.cpp leaves.
use linux_scheduler_comparis.Base.{
  ℕ, ◌+◌, ◌*◌, ◌^◌, ◌≡◌, ap, subst, arith, Bool, List, length, codes, Text,
}
use linux_scheduler_comparis.Base.Int.{ℤ}
use linux_scheduler_comparis.Base.Outcome.{done, >>=-eq-done, done-injective}
use linux_scheduler_comparis.Process.{System, IsLawful}
use linux_scheduler_comparis.Process.Count.{NeverFails, length-fork, length-wait}
use linux_scheduler_comparis.Harness.{gunzip, below, remove_if_exists, run_gzip}
use linux_scheduler_comparis.Harness.Laws.{remove_if_exists-children}
use linux_scheduler_comparis.Launcher.Args.{Stream}
use linux_scheduler_comparis.Launcher.Trial.{hackbench_child, Message}
use linux_scheduler_comparis.Launcher.Trial.Count.{wrong_waits, Balanced, finish_trial-Balanced}
use linux_scheduler_comparis.Interrupt.Trial.{interrupted, run_trial}

module _ (S : System) (children : S.State → List ℤ) (L : IsLawful S children)
    (F : NeverFails S children) where
  -- Two children are forked and one is waited for.
  interrupted-length :
      (path pairs : Text) (pin : ℤ) (s : S.State)
      → length (children (interrupted S path pairs pin s).2) ≡ length (children s) + 1
  unfolding interrupted
  interrupted-length path pairs pin s =
      let s1 = (S.now s).1 in
      let s2 = (S.fork (gunzip pin) s1).1 in
      let s3 = S.sleep_for (3 * 10 ^ 9) s2 in
      let s4 = (S.fork (hackbench_child path pairs pin) s3).1 in
      let second = length-fork S children L F (hackbench_child path pairs pin) s3 in
      omega (
        arith,
        ap length (L.children-now s),
        length-fork S children L F (gunzip pin) s1,
        ap length (L.children-sleep_for (3 * 10 ^ 9) s2),
        second,
        length-wait S children L F s4 (omega (arith, second)),
        ap length (L.children-now (S.wait s4).1),
      )

  -- A trial that ends has kept the balance of children and wrong waits.
  pub run_trial-Balanced :
      (base : ℕ) (path pairs : Text) (pin : ℤ) (out : Stream) (use_out : Bool) (s : S.State)
      (log : List Message) (w : S.State × List Message)
      → run_trial S path pairs pin out use_out (s, log) ≡ done w
      → length (children s) ≡ base + wrong_waits log
      → Balanced S children base w
  unfolding run_trial
  run_trial-Balanced base path pairs pin out use_out s log w h balanced =
      let file = below S (codes "gcc-13.2.0.tar") s in
      let (s1, removed, rest) = >>=-eq-done (remove_if_exists S file s) _ h in
      let (hackbench, run, s2) = interrupted S path pairs pin s1 in
      let (s3, cleaned, last) = >>=-eq-done (remove_if_exists S file s2) _ rest in
      subst (Balanced S children base) (done-injective last) (
        finish_trial-Balanced S children L F (run_gzip S) base hackbench run out use_out s3 log (
          omega (
            arith,
            ap length (remove_if_exists-children S L file s removed),
            interrupted-length path pairs pin s1,
            ap length (remove_if_exists-children S L file s2 cleaned),
            balanced,
          )))
