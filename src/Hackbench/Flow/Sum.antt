-- ===== src/Hackbench/Flow/Sum.antt =====
-- Sums over the processes of a group.
use linux_scheduler_comparis.Base.{
  ℕ, zero, suc, ◌+◌, ◌*◌, ◌≤◌, ◌<◌, ◌≡◌, ◌⊎◌, inl, inr, refl, arith, ◌==◌, ltb, if◌then◌else◌, Bool,
  true, false, Bool-cases,
}

pub sum : ℕ → (ℕ → ℕ) → ℕ
sum zero f = 0
sum (suc n) f = sum n f + f n

pub sum-const_le : (n b : ℕ) (f : ℕ → ℕ) → ((k : ℕ) → k < n → f k ≤ b) → sum n f ≤ n * b
unfolding sum
sum-const_le zero b f h = omega arith
sum-const_le (suc n) b f h =
    omega (arith, sum-const_le n b f (λ k l. h k (omega arith)), h n (omega arith))

pub sum-const : (n b : ℕ) (f : ℕ → ℕ) → ((k : ℕ) → k < n → f k ≡ b) → sum n f ≡ n * b
unfolding sum
sum-const zero b f h = omega arith
sum-const (suc n) b f h =
    omega (arith, sum-const n b f (λ k l. h k (omega arith)), h n (omega arith))

-- Functions that agree below `n`.
pub sum-ext : (n : ℕ) (f g : ℕ → ℕ) → ((k : ℕ) → k < n → f k ≡ g k) → sum n f ≡ sum n g
unfolding sum
sum-ext zero f g h = refl
sum-ext (suc n) f g h = omega (arith, sum-ext n f g (λ k l. h k (omega arith)), h n (omega arith))

-- A change at one place.
sum_change_at :
    (n k d : ℕ) (f g : ℕ → ℕ)
    → ((m : ℕ) → g m ≡ f m + (if m == k then d else 0))
    → sum n g ≡ sum n f + (if ltb k n then d else 0)
unfolding sum
sum_change_at zero k d f g h = ground arith
sum_change_at (suc n) k d f g h = ground (arith, sum_change_at n k d f g h, h n)

pub sum-change :
    (n k d : ℕ) (f g : ℕ → ℕ)
    → k < n
    → ((m : ℕ) → g m ≡ f m + (if m == k then d else 0))
    → sum n g ≡ sum n f + d
sum-change n k d f g low h = ground (arith, sum_change_at n k d f g h)

-- A test that fails somewhere, or holds everywhere.
pub search_all :
    (n : ℕ) (test : ℕ → Bool)
    → ((k : ℕ) × (k < n) × (test k ≡ false)) ⊎ ((k : ℕ) → k < n → test k ≡ true)
search_all zero test = inr (λ k l. absurd (omega arith))
search_all (suc n) test = elim (search_all n test) [
  | inl (k, l, fails) ↦ inl (k, omega arith, fails)
  | inr holds ↦ elim (Bool-cases (test n)) [
    | inr fails ↦ inl (n, omega arith, fails)
    | inl last ↦ inr (λ k l. elim (Bool-cases (k == n)) [
      | inl equal ↦ let same : k ≡ n = ground arith in rw same last
      | inr other ↦ holds k (ground arith)
    ])
  ]
]
