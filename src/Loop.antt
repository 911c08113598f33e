-- ===== src/Loop.antt =====
-- The `for` loops over an `int` that launcher/launcher.cpp and toy/launcher.c have in common. A sum
-- that is no `int` is undefined behaviour.
pub mod Each
pub mod Keeps
use linux_scheduler_comparis.Base.{ℕ, zero, suc, true, false, if◌then◌else◌}
use linux_scheduler_comparis.Base.Int.{ℤ, pos, ◌+ℤ◌, leb_ℤ, ltb_ℤ, fits_int}
use linux_scheduler_comparis.Base.Outcome.{Outcome, done, undefined, spent, ◌>>=◌}

-- `int` addition.
unfoldable pub add_int : ℤ → ℤ → Outcome ℤ
add_int a b = let sum = a +ℤ b in if fits_int sum then done sum else undefined

module _ {ℓ} {W : Type ℓ} (body : ℤ → W → Outcome W) where
  -- `for (…; n <= upper; n += step)`
  unfoldable pub for_le : ℕ → ℤ → ℤ → ℤ → W → Outcome W
  for_le zero n upper step w = spent
  for_le (suc fuel) n upper step w = elim (leb_ℤ n upper) [
    | true ↦ do w' ← body n w; n' ← add_int n step; for_le fuel n' upper step w'
    | false ↦ done w
  ]

  -- `for (…; n < limit; n++)`
  unfoldable pub for_lt : ℕ → ℤ → ℤ → W → Outcome W
  for_lt zero n limit w = spent
  for_lt (suc fuel) n limit w = elim (ltb_ℤ n limit) [
    | true ↦ do w' ← body n w; n' ← add_int n (pos 1); for_lt fuel n' limit w'
    | false ↦ done w
  ]
