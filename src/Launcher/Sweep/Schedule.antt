-- ===== src/Launcher/Sweep/Schedule.antt =====
-- The trials that the loops of launcher/launcher.cpp run.
use linux_scheduler_comparis.Base.{ℕ, ◌<◌, ◌≡◌, refl, sym, ◌∙◌, List, [], ◌∷◌, ◌++◌}
use linux_scheduler_comparis.Base.Int.{ℤ, pos, ◌+ℤ◌, ◌≤ℤ◌, IsInt, int_max}
use linux_scheduler_comparis.Base.Outcome.{Outcome, done, spent, ◌>>=◌, >>=-ext, >>=-assoc}
use linux_scheduler_comparis.Loop.Each.{
  steps, up_to, below, each, each_ext, each_total, for_lt-each, for_le-each, for_le-zero,
}
use linux_scheduler_comparis.Launcher.Sweep.{groups_loop}

-- The trials, in order: each group count with each repetition.
pub pairs_with : ℤ → List ℤ → List (ℤ × ℤ)
pairs_with n [] = []
pairs_with n (rep ∷ reps) = (n, rep) ∷ pairs_with n reps

pub planned : List ℤ → List ℤ → List (ℤ × ℤ)
planned [] reps = []
planned (n ∷ ns) reps = pairs_with n reps ++ planned ns reps

module _ {ℓ} {W : Type ℓ} (trial : ℤ → ℤ → W → Outcome W) where
  pub run_each : List (ℤ × ℤ) → W → Outcome W
  run_each [] w = done w
  run_each ((n, rep) ∷ trials) w = trial n rep w >>= run_each trials

  -- Trials that all end have an end together.
  pub run_each_total :
      ((n rep : ℤ) (w : W) → (w' : W) × (trial n rep w ≡ done w'))
      → (trials : List (ℤ × ℤ)) (w : W) → (w' : W) × (run_each trials w ≡ done w')
  unfolding run_each
  run_each_total total [] w = (w, refl)
  run_each_total total ((n, rep) ∷ trials) w =
      let (w1, ran) = total n rep w in
      let (w2, rest) = run_each_total total trials w1 in (w2, rw ran rest)

  run_each-append :
      (xs ys : List (ℤ × ℤ)) (w : W) → run_each (xs ++ ys) w ≡ (run_each xs w >>= run_each ys)
  unfolding run_each
  run_each-append [] ys w = refl
  run_each-append ((n, rep) ∷ xs) ys w =
      >>=-ext (trial n rep w) (run_each-append xs ys)
      ∙ sym (>>=-assoc (trial n rep w) (run_each xs) (run_each ys))

  run_each-pairs_with :
      (n : ℤ) (reps : List ℤ) (w : W) → run_each (pairs_with n reps) w ≡ each (trial n) reps w
  unfolding run_each pairs_with each
  run_each-pairs_with n [] w = refl
  run_each-pairs_with n (rep ∷ reps) w = >>=-ext (trial n rep w) (run_each-pairs_with n reps)

  run_each-planned :
      (ns reps : List ℤ) (w : W)
      → run_each (planned ns reps) w ≡ each (λ n. each (trial n) reps) ns w
  unfolding planned each run_each
  run_each-planned [] reps w = refl
  run_each-planned (n ∷ ns) reps w =
      rw (run_each-append, run_each-pairs_with)
        (>>=-ext (each (trial n) reps w) (run_each-planned ns reps))

  -- The two loops run the planned trials in order, and end by their tests.
  pub groups_loop-run_each :
      (fuel : ℕ) (lower upper : ℤ) (step : ℕ) (reps : ℤ) (w : W)
      → 0 < step
      → IsInt lower
      → upper +ℤ pos step ≤ℤ pos int_max
      → IsInt reps
      → steps lower upper step < fuel
      → groups_loop trial fuel lower upper (pos step) reps w
        ≡ run_each (planned (up_to lower upper step) (below reps)) w
  unfolding groups_loop
  groups_loop-run_each fuel lower upper step reps w h hl hu hr f =
      for_le-each _ fuel lower upper step w h hl hu f
      ∙ (each_ext _ _ (λ n w'. for_lt-each (trial n) reps w' hr) (up_to lower upper step) w
          ∙ sym (run_each-planned (up_to lower upper step) (below reps) w))

  -- With a step of 0, bounds in order, numbers of type `int` and trials that always end, no amount
  -- of fuel lets the loop over the group counts end.
  pub groups_loop-zero :
      ((n rep : ℤ) (w : W) → (w' : W) × (trial n rep w ≡ done w'))
      → (fuel : ℕ) (lower upper reps : ℤ) (w : W) → IsInt lower
      → lower ≤ℤ upper
      → IsInt reps
      → groups_loop trial fuel lower upper (pos 0) reps w ≡ spent
  unfolding groups_loop
  groups_loop-zero total fuel lower upper reps w hl hu hr =
      for_le-zero _
        (λ n w1.
          let (w2, ran) = each_total (trial n) (total n) (below reps) w1 in
          (w2, for_lt-each (trial n) reps w1 hr ∙ ran))
        fuel lower upper w hl hu
