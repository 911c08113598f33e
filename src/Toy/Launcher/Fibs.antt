-- ===== src/Toy/Launcher/Fibs.antt =====
-- What toy/fib.cpp makes of the words that toy/launcher.c gives it.
use linux_scheduler_comparis.Base.{
  ℕ, suc, ◌<◌, ◌≡◌, refl, Bool, true, [], ◌∷◌, ◌++◌, codes, arith, Bool-cases, inl, inr,
  if◌then◌else◌,
}
use linux_scheduler_comparis.Base.Int.{ℤ, pos, minus_one, eqb_ℤ}
use linux_scheduler_comparis.Base.Outcome.{done}
use linux_scheduler_comparis.Text.Number.{to_string, decimal}
use linux_scheduler_comparis.Toy.Fib
use linux_scheduler_comparis.Toy.Fib.{computing, nth_is, pinned}
use linux_scheduler_comparis.Toy.Fib.Values.{fibonacci, main-fibonacci, main-fibonacci_unpinned}
use linux_scheduler_comparis.Toy.Launcher.{fib_argv}

core_text : codes "0" ≡ to_string (pos 0)
unfolding to_string decimal
core_text = refl

no_core_text : codes "-1" ≡ to_string minus_one
unfolding to_string decimal
no_core_text = refl

-- For a number from 1 to 92, at least as much fuel, any pinning and a system that pins to core 0,
-- toy/fib.cpp accepts the words that toy/launcher.c gives it, returns 0, and prints that it is
-- pinned to core 0, unless the pinning is 0, and the true Fibonacci number.
pub main-fib_argv :
    (set_affinity : ℤ → Bool) (fuel n : ℕ) (pin : ℤ)
    → n < 92
    → n < fuel
    → set_affinity (pos 0) ≡ true
    → Fib.main set_affinity fuel (fib_argv (to_string (pos (suc n))) pin)
      ≡ done (
        pos 0,
        (if eqb_ℤ pin (pos 0) then [] else pinned (pos 0) ∷ [])
            ++ (computing (pos (suc n)) ∷ nth_is (pos (suc n)) (pos (fibonacci (suc n))) ∷ []),
      )
unfolding fib_argv
main-fib_argv set_affinity fuel n pin small enough ok = elim (Bool-cases (eqb_ℤ pin (pos 0))) [
  | inl unpinned ↦
      rw (unpinned, no_core_text)
        (main-fibonacci_unpinned set_affinity fuel n (codes "fib") minus_one small enough
          (omega arith) refl)
  | inr pinning ↦
      rw (pinning, core_text)
        (main-fibonacci set_affinity fuel n (codes "fib") (pos 0) small enough (omega arith) refl
          ok)
]
