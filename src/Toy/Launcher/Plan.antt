-- ===== src/Toy/Launcher/Plan.antt =====
-- The trials that toy/launcher.c runs.
use linux_scheduler_comparis.Base.{ℕ, ◌<◌, ◌≡◌, ap, ◌∙◌, List, [], ◌∷◌, Text}
use linux_scheduler_comparis.Base.Int.{ℤ, pos, ◌+ℤ◌, ◌≤ℤ◌, IsInt, int_max}
use linux_scheduler_comparis.Base.Outcome.{Outcome, done, ◌>>=◌}
use linux_scheduler_comparis.Text.Number.{to_string}
use linux_scheduler_comparis.Text.Number.RoundTrip.{atoi-to_string}
use linux_scheduler_comparis.Loop.{for_le}
use linux_scheduler_comparis.Loop.Each.{
  steps, up_to, below, each, each_ext, for_le-each, for_lt-each,
}
use linux_scheduler_comparis.Toy.Launcher.{Trial, Settings, reps_loop, fibs_loop, pairs_loop, main}

-- The eight arguments, as they are printed.
abbrev pub printed : Text → Settings → List Text
printed prog c =
    prog
    ∷ to_string c.min_hackbench_pairs
    ∷ to_string c.max_hackbench_pairs
    ∷ to_string c.hackbench_pairs_step_size
    ∷ to_string c.min_fib_number
    ∷ to_string c.max_fib_number
    ∷ to_string c.fib_number_step_size
    ∷ to_string c.num_reps
    ∷ to_string c.pin_to_core
    ∷ []

-- One trial for each pair count, Fibonacci number and repetition.
abbrev pub each_trial {ℓ} : {W : Type ℓ} → Trial W → ℤ → List ℤ → List ℤ → List ℤ → W → Outcome W
each_trial run_trial pin pairs fibs reps =
    each
      (λ n.
        each (λ f. each (λ rep w. done (run_trial (to_string n) (to_string f) pin w)) reps) fibs)
      pairs

module _ {ℓ} {W : Type ℓ} (run_trial : Trial W) where
  reps_loop-each :
      (c : Settings) (n f : ℤ) (w : W)
      → IsInt c.num_reps
      → reps_loop run_trial c n f w
        ≡ each
            (λ rep w'. done (run_trial (to_string n) (to_string f) c.pin_to_core w'))
            (below c.num_reps)
            w
  unfolding reps_loop
  reps_loop-each c n f w h = for_lt-each _ c.num_reps w h

  fibs_loop-each :
      (c : Settings) (step fuel : ℕ) (n : ℤ) (w : W)
      → c.fib_number_step_size ≡ pos step
      → 0 < step
      → IsInt c.min_fib_number
      → IsInt c.num_reps
      → c.max_fib_number +ℤ pos step ≤ℤ pos int_max
      → steps c.min_fib_number c.max_fib_number step < fuel
      → fibs_loop run_trial c fuel n w
        ≡ each
            (λ f.
              each
                (λ rep w'. done (run_trial (to_string n) (to_string f) c.pin_to_core w'))
                (below c.num_reps))
            (up_to c.min_fib_number c.max_fib_number step)
            w
  unfolding fibs_loop
  fibs_loop-each c step fuel n w e h if_ ir lf f =
      ap (λ z. for_le (reps_loop run_trial c n) fuel c.min_fib_number c.max_fib_number z w) e
      ∙ (for_le-each _ fuel c.min_fib_number c.max_fib_number step w h if_ lf f
          ∙ each_ext _ _ (λ k w'. reps_loop-each c n k w' ir)
              (up_to c.min_fib_number c.max_fib_number step) w)

  pub pairs_loop-each :
      (c : Settings) (pairs_step fibs_step pairs_fuel fibs_fuel : ℕ) (w : W)
      → c.hackbench_pairs_step_size ≡ pos pairs_step
      → c.fib_number_step_size ≡ pos fibs_step
      → 0 < pairs_step
      → 0 < fibs_step
      → IsInt c.min_hackbench_pairs
      → IsInt c.min_fib_number
      → IsInt c.num_reps
      → c.max_hackbench_pairs +ℤ pos pairs_step ≤ℤ pos int_max
      → c.max_fib_number +ℤ pos fibs_step ≤ℤ pos int_max
      → steps c.min_hackbench_pairs c.max_hackbench_pairs pairs_step < pairs_fuel
      → steps c.min_fib_number c.max_fib_number fibs_step < fibs_fuel
      → pairs_loop run_trial c pairs_fuel fibs_fuel w
        ≡ each_trial run_trial c.pin_to_core
            (up_to c.min_hackbench_pairs c.max_hackbench_pairs pairs_step)
            (up_to c.min_fib_number c.max_fib_number fibs_step)
            (below c.num_reps)
            w
  unfolding pairs_loop
  pairs_loop-each c pairs_step fibs_step pairs_fuel fibs_fuel w ep ef hp hf ip if_ ir lp lf fp ff =
      ap
        (λ z.
          for_le (fibs_loop run_trial c fibs_fuel) pairs_fuel c.min_hackbench_pairs
            c.max_hackbench_pairs z w)
        ep
      ∙ (for_le-each _ pairs_fuel c.min_hackbench_pairs c.max_hackbench_pairs pairs_step w hp ip lp
            fp
          ∙ each_ext _ _ (λ n w'. fibs_loop-each c fibs_step fibs_fuel n w' ef hf if_ ir lf ff)
              (up_to c.min_hackbench_pairs c.max_hackbench_pairs pairs_step) w)

-- All eight settings are of type `int`.
abbrev pub AllInt : Settings → Type 0
AllInt c =
    IsInt c.min_hackbench_pairs
    × IsInt c.max_hackbench_pairs
    × IsInt c.hackbench_pairs_step_size
    × IsInt c.min_fib_number
    × IsInt c.max_fib_number
    × IsInt c.fib_number_step_size
    × IsInt c.num_reps
    × IsInt c.pin_to_core

-- With eight numbers of type `int` as its arguments, both step sizes positive and both upper
-- bounds plus the step at most `INT_MAX`, and more fuel than each loop has values, `main` of
-- toy/launcher.c runs one trial for each pair count, in it for each Fibonacci number, in it for
-- each repetition, with the pinning as it was given, and returns 0.
pub main-each_trial {ℓ} :
    {W : Type ℓ} (run_trial : Trial W) (prog : Text) (c : Settings)
    (pairs_step fibs_step pairs_fuel fibs_fuel : ℕ) (w : W)
    → AllInt c
    → c.hackbench_pairs_step_size ≡ pos pairs_step
    → c.fib_number_step_size ≡ pos fibs_step
    → 0 < pairs_step
    → 0 < fibs_step
    → c.max_hackbench_pairs +ℤ pos pairs_step ≤ℤ pos int_max
    → c.max_fib_number +ℤ pos fibs_step ≤ℤ pos int_max
    → steps c.min_hackbench_pairs c.max_hackbench_pairs pairs_step < pairs_fuel
    → steps c.min_fib_number c.max_fib_number fibs_step < fibs_fuel
    → main run_trial pairs_fuel fibs_fuel (printed prog c) w ≡ (
        each_trial run_trial c.pin_to_core
          (up_to c.min_hackbench_pairs c.max_hackbench_pairs pairs_step)
          (up_to c.min_fib_number c.max_fib_number fibs_step)
          (below c.num_reps)
          w
        >>= λ w'. done (pos 0, w'))
unfolding main
main-each_trial run_trial prog c pairs_step fibs_step pairs_fuel fibs_fuel w
      (i1, i2, i3, i4, i5, i6, i7, i8) ep ef hp hf lp lf fp ff =
    rw
      (
        atoi-to_string c.min_hackbench_pairs i1,
        atoi-to_string c.max_hackbench_pairs i2,
        atoi-to_string c.hackbench_pairs_step_size i3,
        atoi-to_string c.min_fib_number i4,
        atoi-to_string c.max_fib_number i5,
        atoi-to_string c.fib_number_step_size i6,
        atoi-to_string c.num_reps i7,
        atoi-to_string c.pin_to_core i8,
      )
      (ap (λ m. m >>= λ w'. done (pos 0, w'))
        (pairs_loop-each run_trial c pairs_step fibs_step pairs_fuel fibs_fuel w ep ef hp hf i1 i4
          i7 lp lf fp ff))
