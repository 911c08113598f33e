-- ===== src/Process/Count.antt =====
-- How many children are not waited for, on a system whose calls do not fail.
use mathlib.Core.Logic.{∥∥₁_elim}
use mathlib.Core.List.{Perm, Permᴰ}
use native.Mathlib.Nat.{ℕ_set}
use linux_scheduler_comparis.Base.{◌+◌, ◌<◌, ◌≡◌, ◌≢◌, refl, ap, List, length, arith}
use linux_scheduler_comparis.Base.Int.{ℤ, minus_one}
use linux_scheduler_comparis.Base.Outcome.{done}
use linux_scheduler_comparis.Process.{Child, System, IsLawful, TestRun, RunProg}

-- Reordering the children does not change how many they are.
count_kept : {before after : List ℤ} → Permᴰ before after → length after ≡ length before
count_kept (Permᴰ.trans first second) = omega (arith, count_kept first, count_kept second)
count_kept (Permᴰ.swap pid other) = refl
count_kept (Permᴰ.cons pid rest) = omega (arith, count_kept rest)
count_kept Permᴰ.nil = refl

length-perm : {before after : List ℤ} → Perm before after → length after ≡ length before
length-perm same = ∥∥₁_elim same (ℕ_set _ _) count_kept

-- Every `fork` succeeds, and `wait` fails only without a child.
pub record NeverFails (S : System) (children : S.State → List ℤ) : Type 0 where
  pub forks : (c : Child) (s : S.State) → (S.fork c s).0 ≢ minus_one
  pub waits : (s : S.State) → 0 < length (children s) → (S.wait s).0 ≢ minus_one

-- A test program that has as many children at its end as at its start.
abbrev pub KeepsCount : (S : System) → (S.State → List ℤ) → RunProg S → Type 0
KeepsCount S children run_prog =
    (pin : ℤ) (s : S.State) (r : TestRun × S.State)
    → run_prog pin s ≡ done r
    → length (children r.1) ≡ length (children s)

module _ (S : System) (children : S.State → List ℤ) (L : IsLawful S children)
    (F : NeverFails S children) where
  pub length-fork :
      (c : Child) (s : S.State) → length (children (S.fork c s).1) ≡ length (children s) + 1
  length-fork c s = omega (arith, ap length (L.children-fork c s (F.forks c s)))

  pub length-wait :
      (s : S.State)
      → 0 < length (children s)
      → length (children (S.wait s).1) + 1 ≡ length (children s)
  length-wait s h = omega (arith, length-perm (L.children-wait s (F.waits s h)))
